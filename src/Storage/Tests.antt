-- ===== src/Storage/Tests.antt =====
-- A sample memory store.
use dyphira_chain.Common.{◌≡◌, refl, some}
use dyphira_chain.Storage.{
  tip_key, hash_bytes, memory_store, new_memory_store, find, put_entry, same_key,
}

overwrites :
    memory_store.get
      (memory_store.put
        (memory_store.put new_memory_store tip_key (hash_bytes 4))
        tip_key
        (hash_bytes 9))
      tip_key
    ≡ some (hash_bytes 9)
unfolding find put_entry same_key
overwrites = refl
