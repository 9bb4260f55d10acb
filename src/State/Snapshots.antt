-- ===== src/State/Snapshots.antt =====
-- New states, single writes, and `ImportSnapshot`.
use dyphira_chain.Common.{
  ◌<◌, ◌≡◌, refl, List, [], ◌∷◌, ◌==◌, if◌then◌else◌, All, word_mod, arith, ==_iff,
}
use dyphira_chain.Types.{Address, IsAddress, Account}
use dyphira_chain.Trie.{Digest}
use dyphira_chain.Trie.Laws.{get-new}
use dyphira_chain.State.{
  State, new_state, get_account, put_account, empty_account, address_bytes, import_snapshot,
}
use dyphira_chain.State.Accounts.{get-put}
use dyphira_chain.State.Apply.{IsValid}

-- An account as `PutAccount` may be given it.
pub record IsAccount (acc : Account) : Type 0 where
  pub address_ok : IsAddress acc.address
  pub balance_ok : acc.balance < word_mod

module _ ⦃d : Digest Account⦄ where
  pub get-new_state : (a : Address) → get_account new_state a ≡ empty_account a
  unfolding new_state get_account
  get-new_state a = rw (get-new (address_bytes a)) refl

  pub new_state-IsValid : IsValid new_state
  new_state-IsValid = record {
    keyed = λ a ha. rw (get-new_state a) refl;
    bounded = λ a ha. rw (get-new_state a) (omega arith);
  }

  pub put_account-IsValid :
      (s : State) (acc : Account) → IsValid s → IsAccount acc → IsValid (put_account s acc)
  put_account-IsValid s acc v h = record {
    keyed = λ a ha.
        rw (get-put s acc a h.address_ok ha) (ground (arith, v.keyed a ha, ==_iff acc.address a));
    bounded =
        λ a ha. rw (get-put s acc a h.address_ok ha) (ground (arith, v.bounded a ha, h.balance_ok));
  }

  pub import_snapshot-IsValid :
      (s : State) (accs : List Account)
      → IsValid s
      → All IsAccount accs
      → IsValid (import_snapshot s accs)
  unfolding import_snapshot
  import_snapshot-IsValid s [] v h = v
  import_snapshot-IsValid s (acc ∷ accs) v h =
      import_snapshot-IsValid (put_account s acc) accs (put_account-IsValid s acc v h.0) h.1

-- The last account in the list with this address, or else the one that is given.
abbrev pub last_of : Address → Account → List Account → Account
last_of a acc [] = acc
last_of a acc (x ∷ xs) = last_of a (if x.address == a then x else acc) xs

module _ ⦃d : Digest Account⦄ where
  -- After an import every address reads as its last account in the snapshot, and an address that
  -- is not in the snapshot reads as before.
  pub import_snapshot_accounts :
      (s : State) (accs : List Account) (a : Address)
      → All IsAccount accs
      → IsAddress a
      → get_account (import_snapshot s accs) a ≡ last_of a (get_account s a) accs
  unfolding import_snapshot
  import_snapshot_accounts s [] a h ha = refl
  import_snapshot_accounts s (acc ∷ accs) a h ha =
      rw (import_snapshot_accounts (put_account s acc) accs a h.1 ha)
        (rw (get-put s acc a h.0.address_ok ha) refl)
