-- ===== src/MethodKeys.antt =====
-- The keys that name methods (comet/utils/method_keys.py, and `code_hash` of
-- comet/utils/hash_utils.py). The digest of a text in hexadecimal (SHA-256) is a parameter. Not modelled: the canonical coverage signature, which is written
-- with regular expressions.
mod Spaces
mod Tests
use comet_l.Prelude.{
  ℕ, suc, ◌-◌, Bool, true, false, ◌&&◌, ◌==◌, Option, none, some, List, [], ◌∷◌, ◌++◌, Text, codes,
  is_space, take, if◌then◌else◌,
}

-- `word` in front of the words, unless it is empty.
abbrev pub add_word : Text → List Text → List Text
add_word [] ws = ws
add_word (c ∷ w) ws = (c ∷ w) ∷ ws

-- The word that the text begins with (empty if it begins with a space), and the words after it.
unfoldable pub split_words : Text → Text × List Text
split_words [] = ([], [])
split_words (c ∷ s) =
    let (word, words) = split_words s in
    if is_space c then ([], add_word word words) else (c ∷ word, words)

-- `s.split()`
abbrev pub words_of : Text → List Text
words_of s = add_word (split_words s).0 (split_words s).1

-- `" ".join(ws)`
unfoldable pub join_spaces : List Text → Text
join_spaces [] = []
join_spaces (w ∷ []) = w
join_spaces (w ∷ v ∷ ws) = w ++ 32 ∷ join_spaces (v ∷ ws)

-- `x or None`
abbrev pub non_empty : Text → Option Text
non_empty [] = none
non_empty (c ∷ s) = some (c ∷ s)

unfoldable pub normalize_method_signature : Option Text → Option Text
unfolding split_words join_spaces
normalize_method_signature none = none
normalize_method_signature (some s) = non_empty (join_spaces (words_of s))

-- The characters `<` and `>` are dropped with all between them.
unfoldable pub strip_generic_arguments : ℕ → Text → Text
strip_generic_arguments depth [] = []
strip_generic_arguments depth (c ∷ s) =
    let opened = strip_generic_arguments (suc depth) s in
    let closed = strip_generic_arguments (depth - 1) s in
    let kept = strip_generic_arguments depth s in
    if c == 60 then opened else if c == 62 then closed else if depth == 0 then c ∷ kept else kept

-- `"".join(ws)`
abbrev pub concat_words : List Text → Text
concat_words [] = []
concat_words (w ∷ ws) = w ++ concat_words ws

-- `code_hash`
abbrev pub code_hash : (Text → Text) → Text → Text
code_hash digest s = digest (concat_words (words_of s))

unfoldable pub build_method_key : (Text → Text) → Text → Text → Option Text → Text
unfolding normalize_method_signature
build_method_key digest class_name [] signature = class_name
build_method_key digest class_name (c ∷ name) signature =
    elim (normalize_method_signature signature) [
      | none ↦ class_name ++ codes "." ++ c ∷ name
      | some s ↦ class_name ++ codes "." ++ (c ∷ name) ++ codes "#" ++ take 10 (code_hash digest s)
    ]

unfoldable pub build_preprocess_task_id : (Text → Text) → Text → Text → Option Text → Text
unfolding build_method_key
build_preprocess_task_id digest class_name name signature =
    codes "Pre:" ++ build_method_key digest class_name name signature

-- `class_name.replace("$", "_")`
abbrev pub clean_class_name : Text → Text
clean_class_name [] = []
clean_class_name (c ∷ s) = (if c == 36 then 95 else c) ∷ clean_class_name s

unfoldable pub build_test_class_name : (Text → Text) → Text → Text → Option Text → Text
unfolding normalize_method_signature
build_test_class_name digest class_name name signature =
    elim (normalize_method_signature signature) [
      | none ↦ clean_class_name class_name ++ codes "_" ++ name ++ codes "Test"
      | some s ↦
          clean_class_name class_name
          ++ codes "_"
          ++ name
          ++ codes "_"
          ++ take 8 (code_hash digest s)
          ++ codes "Test"
    ]
