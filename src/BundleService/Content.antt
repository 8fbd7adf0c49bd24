-- ===== src/BundleService/Content.antt =====
-- operator/internal/bundleservice/bundle/hash.go and builder.go. `sort.Slice`, SHA-256 with its
-- hexadecimal printing, `filepath.Clean` and the writing of the tar.gz are parameters.
pub mod Order
use kagenti_operator.Prelude.{
  ℕ, ◌+◌, Bool, true, false, ◌&&◌, ◌||◌, Text, lit, is_empty, beq, Option, none, some, List, [],
  ◌∷◌, ◌++◌, ◌==◌, ltb, if◌then◌else◌,
}
use kagenti_operator.Strings.{has_prefix}

pub record Policy : Type 0 where
  pub path : Text
  pub content : Text

-- Go's `<` on strings.
unfoldable pub text_lt : Text → Text → Bool
text_lt [] [] = false
text_lt [] (d ∷ t) = true
text_lt (c ∷ s) [] = false
text_lt (c ∷ s) (d ∷ t) = ltb c d || (c == d && text_lt s t)

-- strings.Contains
unfoldable pub contains_text : Text → Text → Bool
contains_text [] part = has_prefix [] part
contains_text (c ∷ s) part = has_prefix (c ∷ s) part || contains_text s part

-- What the hash is computed of: the writes of `ContentHash`.
unfoldable pub hash_input : List Policy → Text
hash_input [] = []
hash_input (p ∷ ps) = p.path ++ 0 ∷ (p.content ++ 0 ∷ hash_input ps)

unfoldable pub content_hash :
    (sort : List Policy → List Policy) (digest_hex : Text → Text) → List Policy → Text
content_hash sort digest_hex [] = lit "sha256:empty"
content_hash sort digest_hex (p ∷ ps) = lit "sha256:" ++ digest_hex (hash_input (sort (p ∷ ps)))

-- validatePath, true where it returns no error
unfoldable pub validate_path : (clean : Text → Text) → Text → Bool
validate_path clean path =
    if is_empty path
    then false
    else if has_prefix path (lit "/")
    then false
    else if contains_text path (lit "..")
    then false
    else if has_prefix (clean path) (lit "..")
    then false
    else true

unfoldable pub all_valid : (clean : Text → Text) → List Policy → Bool
all_valid clean [] = true
all_valid clean (p ∷ ps) = if validate_path clean p.path then all_valid clean ps else false

-- The archive, or an error; `archive` writes the sorted policies and the manifest.
unfoldable pub build :
    (sort : List Policy → List Policy) (clean : Text → Text) (archive : List Policy → Option Text)
    → List Policy
    → Option Text
build sort clean archive policies =
    if all_valid clean policies then archive (sort policies) else none

-- How often a policy stands in a list, and how many of its policies have a path.
abbrev pub same_policy : Policy → Policy → Bool
same_policy p q = beq p.path q.path && beq p.content q.content

abbrev pub count : Policy → List Policy → ℕ
count p [] = 0
count p (q ∷ l) = (if same_policy p q then 1 else 0) + count p l
