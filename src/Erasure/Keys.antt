-- ===== src/Erasure/Keys.antt =====
-- The key that an erasure takes from a stored path.
use Prim.Native.Char.{code}
use a_pag_ai_knowledge_base.Prelude.{
  String, ◌≡◌, refl, true, false, Bool-cases, inl, inr, ◌==◌, ==_refl, arith,
}
use a_pag_ai_knowledge_base.Upload.{path_of, has_slash}
use a_pag_ai_knowledge_base.Erasure.{is_empty, starts_with, behind_slash, with_slash, key_in}

behind_slash-path_of :
    (bucket key : String) → has_slash bucket ≡ false → behind_slash (path_of bucket key) ≡ key
behind_slash-path_of String.[] key h = refl
behind_slash-path_of (String.◌∷◌ c bucket) key h = elim (Bool-cases (code c == 47)) [
  | inl slash ↦ absurd (ground (arith, slash, h))
  | inr other ↦ rw other (behind_slash-path_of bucket key (ground (arith, other, h)))
]

starts_with-path_of :
    (bucket key : String) → starts_with (with_slash bucket) (path_of bucket key) ≡ true
starts_with-path_of String.[] key = refl
starts_with-path_of (String.◌∷◌ c bucket) key =
    rw (==_refl (code c), starts_with-path_of bucket key) refl

starts_with-plain :
    (bucket path : String) → has_slash path ≡ false → starts_with (with_slash bucket) path ≡ false
starts_with-plain String.[] String.[] h = refl
starts_with-plain String.[] (String.◌∷◌ c path) h = ground (arith, h)
starts_with-plain (String.◌∷◌ c bucket) String.[] h = refl
starts_with-plain (String.◌∷◌ c bucket) (String.◌∷◌ d path) h =
    ground (arith, h, starts_with-plain bucket path)

-- The key behind the bucket of a stored path, and a key without a slash as it is.
pub key_in-path_of :
    (bucket key : String) → has_slash bucket ≡ false → key_in bucket (path_of bucket key) ≡ key
unfolding key_in
key_in-path_of bucket key h =
    rw (starts_with-path_of bucket key) (behind_slash-path_of bucket key h)

pub key_in-plain : (bucket key : String) → has_slash key ≡ false → key_in bucket key ≡ key
unfolding key_in
key_in-plain bucket key h = rw (starts_with-plain bucket key h) refl

pub is_empty-path_of : (bucket key : String) → is_empty (path_of bucket key) ≡ false
is_empty-path_of String.[] key = refl
is_empty-path_of (String.◌∷◌ c bucket) key = refl
