-- ===== src/Bmt/Block/Image.antt =====
-- `serialize` and `deserialize` of src/vdev/bmt_topology.hpp.
use emergence_os_bare_metal.Base.{
  ℕ, ◌*◌, ◌≡◌, refl, sym, ap₂, ◌∙◌, arith, List, [], ◌∷◌, ◌++◌, length, length-append,
  drop-append_eq, append-nil, append_assoc,
}
use emergence_os_bare_metal.Bmt.Value.{Value128, write_to}
use emergence_os_bare_metal.Bmt.Value.Payload.{read_from-write_to}
use emergence_os_bare_metal.Bmt.Block.{
  Block, AreWords, IsBlock, serialize, deserialize, read_entries,
}

length-write_to : (v : Value128) → length (write_to v) ≡ 16
unfolding write_to
length-write_to v = refl

pub length-serialize : (b : Block) → length (serialize b) ≡ 16 * length b
unfolding serialize
length-serialize [] = omega arith
length-serialize (v ∷ vs) =
    omega (arith, length-append (write_to v) (serialize vs), length-write_to v, length-serialize vs)

read_entries-serialize :
    (b : Block) (rest : List ℕ) → AreWords b → read_entries (length b) (serialize b ++ rest) ≡ b
unfolding read_entries serialize
read_entries-serialize [] rest ws = refl
read_entries-serialize (v ∷ vs) rest ws = rw (append_assoc (write_to v) (serialize vs) rest) (
    ap₂ ◌∷◌ (read_from-write_to v (serialize vs ++ rest) ws.0) (
      rw (drop-append_eq 16 (write_to v) (serialize vs ++ rest) (length-write_to v))
        (read_entries-serialize vs rest ws.1)))

-- A block is read back from its image.
pub deserialize-serialize : (b : Block) → IsBlock b → deserialize (serialize b) ≡ b
unfolding deserialize
deserialize-serialize b valid =
    ap₂ read_entries (sym valid.0) (sym (append-nil (serialize b)))
    ∙ read_entries-serialize b [] valid.1
