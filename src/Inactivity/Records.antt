-- ===== src/Inactivity/Records.antt =====
-- What the records of the inactivity monitor say of the reports that came in.
use dyphira_chain.Common.{
  ℕ, ◌≡◌, refl, sym, ap, subst, ◌∙◌, Bool, true, false, ◌||◌, List, [], ◌∷◌, ◌++◌, map, Option,
  none, some, length, get_elem?, contains, keep, IsDistinct, All, ◌==◌, ==_iff, if◌then◌else◌,
  arith, inl, inr, Bool-cases, length-append,
}
use dyphira_chain.Common.Distinct.{contains-append, IsDistinct-append}
use mathlib.Core.List.{append-nil, append_assoc, map-append}
use dyphira_chain.Common.Dict.{Dict, lookup, lookup-insert}
use dyphira_chain.Bar.Peers.{PeerId}
use dyphira_chain.Inactivity.{
  Reason, InactivityRecord, fresh_record, reported, record_or_fresh, record_inactivity,
  with_reporter,
}

-- One call of `recordInactivity`.
pub record Report : Type 0 where
  pub peer : PeerId
  pub reporter : PeerId
  pub reason : Reason
  pub evidence : List ℕ
  pub time : ℕ

unfoldable pub record_all : Dict InactivityRecord → List Report → Dict InactivityRecord
record_all d [] = d
record_all d (r ∷ rs) =
    record_all (record_inactivity d r.peer r.reporter r.reason r.evidence r.time) rs

-- The reports on one peer, in their order.
abbrev pub about : PeerId → List Report → List Report
about p = keep (λ r. r.peer == p)

-- The time of the last report, or the given one if there is none.
abbrev pub last_time : ℕ → List Report → ℕ
last_time t [] = t
last_time t (r ∷ rs) = last_time r.time rs

abbrev pub all_evidence : List Report → List ℕ
all_evidence [] = []
all_evidence (r ∷ rs) = r.evidence ++ all_evidence rs

-- A record is the summary of a list of reports: it counts them, has every reason and every piece
-- of evidence in order, the time of the first and of the last report, and every reporter once.
pub record Summarises (p : PeerId) (rs : List Report) (x : InactivityRecord) : Type 0 where
  pub peer : x.peer_id ≡ p
  pub counted : x.report_count ≡ length rs
  pub reasons : x.reasons ≡ map (λ r. r.reason) rs
  pub evidence : x.evidence ≡ all_evidence rs
  pub first : get_elem? (map (λ r. r.time) rs) 0 ≡ some x.first_reported
  pub last : x.last_reported ≡ last_time 0 rs
  pub distinct : IsDistinct x.reporters
  pub heard : (q : PeerId) → contains q x.reporters ≡ contains q (map (λ r. r.reporter) rs)

-- A record, or none, for the reports on a peer.
abbrev pub Recorded : PeerId → List Report → Option InactivityRecord → Type 0
Recorded p rs none = rs ≡ []
Recorded p rs (some x) = Summarises p rs x

all_evidence-append :
    (rs : List Report) (r : Report) → all_evidence (rs ++ r ∷ []) ≡ all_evidence rs ++ r.evidence
all_evidence-append [] r = append-nil r.evidence
all_evidence-append (x ∷ rs) r =
    ap (λ l. x.evidence ++ l) (all_evidence-append rs r)
    ∙ sym (append_assoc x.evidence (all_evidence rs) r.evidence)

last_time-append : (t : ℕ) (rs : List Report) (r : Report) → last_time t (rs ++ r ∷ []) ≡ r.time
last_time-append t [] r = refl
last_time-append t (x ∷ rs) r = last_time-append x.time rs r

first-append :
    (rs : List Report) (r : Report) (t : ℕ)
    → get_elem? (map (λ x. x.time) rs) 0 ≡ some t
    → get_elem? (map (λ x. x.time) (rs ++ r ∷ [])) 0 ≡ some t
first-append [] r t e = cc
first-append (x ∷ rs) r t e = e

with_reporter-contains :
    (l : List PeerId) (a q : PeerId) → contains q (with_reporter l a) ≡ (contains q l || a == q)
with_reporter-contains l a q = elim (Bool-cases (contains a l)) [
  | inl e ↦ rw e (ground (arith, e, ==_iff a q))
  | inr e ↦ rw e (ground (arith, contains-append q l (a ∷ [])))
]

apart :
    (l : List PeerId) (a : PeerId) → contains a l ≡ false → All (λ b. contains b (a ∷ []) ≡ false) l
apart [] a e = tt
apart (x ∷ l) a e = (ground (arith, e, ==_iff a x), apart l a (ground arith))

with_reporter-IsDistinct :
    (l : List PeerId) (a : PeerId) → IsDistinct l → IsDistinct (with_reporter l a)
with_reporter-IsDistinct l a d = elim (Bool-cases (contains a l)) [
  | inl e ↦ rw e d
  | inr e ↦ rw e (IsDistinct-append l (a ∷ []) d (refl, tt) (apart l a e))
]

-- One more report.
reported-Summarises :
    (p : PeerId) (rs : List Report) (x : InactivityRecord) (r : Report)
    → Summarises p rs x
    → Summarises p (rs ++ r ∷ []) (reported x r.reporter r.reason r.evidence r.time)
reported-Summarises p rs x r s = record {
  peer = s.peer;
  counted = omega (arith, s.counted, length-append rs (r ∷ []));
  reasons = ap (λ l. l ++ r.reason ∷ []) s.reasons ∙ sym (map-append (λ r. r.reason) rs (r ∷ []));
  evidence = ap (λ l. l ++ r.evidence) s.evidence ∙ sym (all_evidence-append rs r);
  first = first-append rs r x.first_reported s.first;
  last = sym (last_time-append 0 rs r);
  distinct = with_reporter-IsDistinct x.reporters r.reporter s.distinct;
  heard = λ q.
      with_reporter-contains x.reporters r.reporter q
      ∙ ap (λ b. b || r.reporter == q) (s.heard q)
      ∙ sym (heard_last q);
}
  where
    heard_last :
        (q : PeerId)
        → contains q (map (λ r. r.reporter) (rs ++ r ∷ []))
          ≡ (contains q (map (λ r. r.reporter) rs) || r.reporter == q)
    heard_last q =
        ap (contains q) (map-append (λ r. r.reporter) rs (r ∷ []))
        ∙ contains-append q (map (λ r. r.reporter) rs) (r.reporter ∷ [])
        ∙ (ground arith)

-- The first report.
fresh-Summarises :
    (p : PeerId) (r : Report)
    → Summarises p (r ∷ []) (reported (fresh_record p r.time) r.reporter r.reason r.evidence r.time)
fresh-Summarises p r = record {
  peer = refl;
  counted = refl;
  reasons = refl;
  evidence = sym (append-nil r.evidence);
  first = refl;
  last = refl;
  distinct = (refl, tt);
  heard = λ q. refl;
}

-- A record with one more report, whether it was there or not.
next-Summarises :
    (p : PeerId) (rs : List Report) (o : Option InactivityRecord) (r : Report)
    → Recorded p rs o
    → Summarises p
        (rs ++ r ∷ [])
        (reported (record_or_fresh o p r.time) r.reporter r.reason r.evidence r.time)
next-Summarises p rs none r h =
    subst
      (λ l.
        Summarises p (l ++ r ∷ [])
          (reported (fresh_record p r.time) r.reporter r.reason r.evidence r.time))
      (sym h) (fresh-Summarises p r)
next-Summarises p rs (some x) r h = reported-Summarises p rs x r h

record_inactivity-Recorded :
    (p : PeerId) (rs : List Report) (d : Dict InactivityRecord) (r : Report)
    → Recorded p rs (lookup p d)
    → Recorded p
        (rs ++ about p (r ∷ []))
        (lookup p (record_inactivity d r.peer r.reporter r.reason r.evidence r.time))
unfolding record_inactivity
record_inactivity-Recorded p rs d r h =
    let entry = λ (q : PeerId).
      reported (record_or_fresh (lookup q d) q r.time) r.reporter r.reason r.evidence r.time in
    elim (Bool-cases (r.peer == p)) [
      | inl e ↦
          let same : r.peer ≡ p = (==_iff r.peer p).0 e in
          rw (lookup-insert r.peer p (entry r.peer) d) (
            rw e (
              subst (λ q. Summarises p (rs ++ r ∷ []) (entry q)) (sym same)
                (next-Summarises p rs (lookup p d) r h)))
      | inr e ↦
          rw (lookup-insert r.peer p (entry r.peer) d)
            (rw e (subst (λ l. Recorded p l (lookup p d)) (sym (append-nil rs)) h))
    ]

record_all-Recorded :
    (p : PeerId) (before : List Report) (d : Dict InactivityRecord) (rs : List Report)
    → Recorded p before (lookup p d)
    → Recorded p (before ++ about p rs) (lookup p (record_all d rs))
unfolding record_all
record_all-Recorded p before d [] h =
    subst (λ l. Recorded p l (lookup p d)) (sym (append-nil before)) h
record_all-Recorded p before d (r ∷ rs) h =
    subst (λ l. Recorded p l (lookup p (record_all d (r ∷ rs)))) (regroup (r.peer == p))
      (record_all-Recorded p (before ++ about p (r ∷ []))
        (record_inactivity d r.peer r.reporter r.reason r.evidence r.time) rs
        (record_inactivity-Recorded p before d r h))
  where
    regroup :
        (b : Bool)
        → (before ++ (if b then r ∷ [] else [])) ++ about p rs
          ≡ before ++ (if b then r ∷ about p rs else about p rs)
    regroup true = append_assoc before (r ∷ []) (about p rs)
    regroup false = ap (λ l. l ++ about p rs) (append-nil before)

-- After any list of reports to a monitor without records, there is a record of a peer exactly when
-- some report is on that peer, and it is the summary of those reports.
pub record_all_lem :
    (p : PeerId) (rs : List Report) → Recorded p (about p rs) (lookup p (record_all [] rs))
unfolding lookup
record_all_lem p rs = record_all-Recorded p [] [] rs refl
