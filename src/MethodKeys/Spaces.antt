-- ===== src/MethodKeys/Spaces.antt =====
-- Normal signatures: one space between words, none around them.
use comet_l.Prelude.{
  ◌≡◌, refl, ap, ◌∙◌, false, Option, none, some, List, [], ◌∷◌, ◌++◌, Text, is_space, All,
  Bool-cases, inl, inr,
}
use comet_l.MethodKeys.{
  code_hash, concat_words, add_word, split_words, words_of, join_spaces, non_empty,
  normalize_method_signature, build_method_key,
}

-- A word is not empty and has no space.
abbrev pub IsWord : Text → Type 0
IsWord [] = ⊥
IsWord (c ∷ w) = (is_space c ≡ false) × All (λ d. is_space d ≡ false) w

abbrev Spaceless : Text → Type 0
Spaceless = All (λ d. is_space d ≡ false)

add_word-IsWord :
    (w : Text) (ws : List Text) → Spaceless w → All IsWord ws → All IsWord (add_word w ws)
add_word-IsWord [] ws h hs = hs
add_word-IsWord (c ∷ w) ws h hs = (h, hs)

split_words-IsWord : (s : Text) → Spaceless (split_words s).0 × All IsWord (split_words s).1
unfolding split_words
split_words-IsWord [] = (tt, tt)
split_words-IsWord (c ∷ s) =
    let ih = split_words-IsWord s in
    elim (Bool-cases (is_space c)) [
      | inl e ↦ rw e (tt, add_word-IsWord (split_words s).0 (split_words s).1 ih.0 ih.1)
      | inr e ↦ rw e ((e, ih.0), ih.1)
    ]

words_of-IsWord : (s : Text) → All IsWord (words_of s)
words_of-IsWord s =
    let h = split_words-IsWord s in add_word-IsWord (split_words s).0 (split_words s).1 h.0 h.1

-- A word in front of a space is the first word, and so is one at the end.
split_words-front :
    (w s : Text) (ws : List Text)
    → Spaceless w
    → split_words s ≡ ([], ws)
    → split_words (w ++ s) ≡ (w, ws)
unfolding split_words
split_words-front [] s ws h e = e
split_words-front (c ∷ w) s ws h e = rw (h.0, split_words-front w s ws h.1 e) refl

split_words-last : (w : Text) → Spaceless w → split_words w ≡ (w, [])
unfolding split_words
split_words-last [] h = refl
split_words-last (c ∷ w) h = rw (h.0, split_words-last w h.1) refl

-- Splitting takes the joined words apart again.
split-join :
    (w : Text) (ws : List Text)
    → IsWord w
    → All IsWord ws
    → split_words (join_spaces (w ∷ ws)) ≡ (w, ws)
unfolding join_spaces split_words
split-join [] ws h hs = absurd h
split-join (c ∷ w) [] h hs = split_words-last (c ∷ w) h
split-join (c ∷ w) ([] ∷ ws) h hs = absurd hs.0
split-join (c ∷ w) ((d ∷ v) ∷ ws) h hs =
    split_words-front (c ∷ w) (32 ∷ join_spaces ((d ∷ v) ∷ ws)) ((d ∷ v) ∷ ws) h
      (rw (split-join (d ∷ v) ws hs.0 hs.1) refl)

words_of-join : (ws : List Text) → All IsWord ws → words_of (join_spaces ws) ≡ ws
unfolding join_spaces split_words
words_of-join [] h = refl
words_of-join ([] ∷ ws) h = absurd h.0
words_of-join ((c ∷ w) ∷ ws) h = rw (split-join (c ∷ w) ws h.0 h.1) refl

normalize-non_empty :
    (s : Text) → normalize_method_signature (non_empty s) ≡ normalize_method_signature (some s)
unfolding normalize_method_signature split_words join_spaces
normalize-non_empty [] = refl
normalize-non_empty (c ∷ s) = refl

-- A signature that is normal stays as it is.
pub normalize_method_signature_idempotent :
    (signature : Option Text)
    → normalize_method_signature (normalize_method_signature signature)
      ≡ normalize_method_signature signature
unfolding normalize_method_signature
normalize_method_signature_idempotent none = refl
normalize_method_signature_idempotent (some s) =
    normalize-non_empty (join_spaces (words_of s))
    ∙ ap (λ ws. non_empty (join_spaces ws)) (words_of-join (words_of s) (words_of-IsWord s))

-- The words of a text without spaces between them: the digest of a signature sees no others.
pub code_hash-normalize :
    (digest : Text → Text) (s : Text)
    → code_hash digest (join_spaces (words_of s)) ≡ code_hash digest s
code_hash-normalize digest s =
    ap (λ ws. digest (concat_words ws)) (words_of-join (words_of s) (words_of-IsWord s))

-- The keys of a method and of the same method with its signature in normal form are the same.
pub build_method_key-normalize :
    (digest : Text → Text) (class_name name : Text) (signature : Option Text)
    → build_method_key digest class_name name (normalize_method_signature signature)
      ≡ build_method_key digest class_name name signature
unfolding build_method_key
build_method_key-normalize digest class_name [] signature = refl
build_method_key-normalize digest class_name (c ∷ name) signature =
    rw (build_method_key, normalize_method_signature_idempotent signature) refl
