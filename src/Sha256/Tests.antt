-- ===== src/Sha256/Tests.antt =====
-- Runs of src/crypto/sha256.hpp.
use emergence_os_bare_metal.Base.{
  ℕ, ◌+◌, ◌≡◌, List, [], ◌∷◌, replicate, length, length-replicate, u64,
}
use emergence_os_bare_metal.Sha256.{Sha256, initial, update}
use emergence_os_bare_metal.Sha256.Reference.{view, feed, IsSha}
use emergence_os_bare_metal.Sha256.Stream.{update_lem}

abbrev fresh : Sha256
fresh = initial (replicate 64 0)

abbrev some_bytes : List ℕ
some_bytes = 97 ∷ 98 ∷ 99 ∷ []

fresh-IsSha : IsSha fresh
unfolding initial
fresh-IsSha = length-replicate {A = ℕ} 64 0

update_lem_example :
    (view (update fresh some_bytes) ≡ feed (view fresh) some_bytes)
    × IsSha (update fresh some_bytes)
    × ((update fresh some_bytes).count ≡ u64 (fresh.count + length some_bytes))
update_lem_example = update_lem fresh some_bytes fresh-IsSha
