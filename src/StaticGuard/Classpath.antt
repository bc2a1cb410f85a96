-- ===== src/StaticGuard/Classpath.antt =====
-- The class path of a project, and which compiler errors are tried again with Maven.
use comet_l.Prelude.{
  ◌≡◌, ap, refl, Bool, false, Option, none, some, List, [], ◌∷◌, ◌++◌, Text, codes, lookup, insert,
  lookup-insert, text_eq_refl, arith, any_of, or_else, has_part, if◌then◌else◌, Option-cases, inl,
  inr,
}
use comet_l.StaticGuard.Types.{Tools, Guard}

-- `separator.join(parts)`
unfoldable pub join_with : Text → List Text → Text
join_with separator [] = []
join_with separator (p ∷ []) = p
join_with separator (p ∷ q ∷ parts) = p ++ separator ++ join_with separator (q ∷ parts)

-- `part for part in parts if part`
unfoldable pub without_empty : List Text → List Text
without_empty [] = []
without_empty ([] ∷ parts) = without_empty parts
without_empty ((c ∷ p) ∷ parts) = (c ∷ p) ∷ without_empty parts

abbrev non_empty : Text → Option Text
non_empty [] = none
non_empty (c ∷ t) = some (c ∷ t)

module _ {ℓ} {W : Type ℓ} (tools : Tools W) where
  -- `_build_filesystem_classpath`
  unfoldable pub build_filesystem_classpath : Text → W → Option Text
  unfolding join_with
  build_filesystem_classpath root w = elim (tools.dependency_jars root w) [
    | [] ↦ none
    | jar ∷ jars ↦ some (join_with tools.separator (jar ∷ jars))
  ]

  -- The compiled classes, then Maven's class path or the jars of the file system
  unfoldable pub new_classpath : Text → W → Option Text × W
  unfolding build_filesystem_classpath join_with without_empty
  new_classpath root w =
      let classes =
        if tools.exists (tools.classes_dir root) w then tools.classes_dir root ∷ [] else [] in
      let (maven, w') = tools.resolve_maven_classpath root w in
      let found = or_else maven (build_filesystem_classpath root w') in
      let libraries : List Text = elim found [ some path ↦ path ∷ [] | none ↦ [] ] in
      (non_empty (join_with tools.separator (without_empty (classes ++ libraries))), w')

  -- `_build_classpath`
  unfoldable pub build_classpath : Option Text → Guard W → Option Text × Guard W
  unfolding new_classpath
  build_classpath none g = (none, g)
  build_classpath (some root) g = elim (lookup (tools.resolve root) g.classpaths) [
    | some path ↦ (path, g)
    | none ↦
        let (path, w) = new_classpath root g.world in
        (path, record g { classpaths = insert (tools.resolve root) path g.classpaths; world = w })
  ]

  abbrev retryable_markers : List Text
  retryable_markers =
      codes "package "
      ∷ codes "程序包"
      ∷ codes "cannot find symbol"
      ∷ codes "找不到符号"
      ∷ codes "class file for"
      ∷ codes "无法访问"
      ∷ codes "cannot access"
      ∷ []

  abbrev non_retryable_markers : List Text
  non_retryable_markers =
      codes "';' expected"
      ∷ codes "需要';'"
      ∷ codes "not a statement"
      ∷ codes "illegal start of expression"
      ∷ codes "illegal start of type"
      ∷ codes "reached end of file while parsing"
      ∷ codes "')' expected"
      ∷ codes "'}' expected"
      ∷ []

  -- `_is_retryable_javac_failure`
  unfoldable pub is_retryable_javac_failure : Text → Bool
  unfolding has_part
  is_retryable_javac_failure stderr =
      let message = tools.lower stderr in
      if any_of (λ marker. has_part (tools.lower marker) message) non_retryable_markers
      then false
      else any_of (λ marker. has_part (tools.lower marker) message) retryable_markers

  build_classpath-known :
      (root : Text) (g : Guard W) (path : Option Text)
      → lookup (tools.resolve root) g.classpaths ≡ some path
      → build_classpath (some root) g ≡ (path, g)
  unfolding build_classpath
  build_classpath-known root g path known = rw (build_classpath, known) refl

  build_classpath-lookup :
      (root : Text) (g : Guard W)
      → lookup (tools.resolve root) (build_classpath (some root) g).1.classpaths
        ≡ some (build_classpath (some root) g).0
  unfolding build_classpath
  build_classpath-lookup root g = elim (Option-cases (lookup (tools.resolve root) g.classpaths)) [
    | inl absent ↦
        rw (build_classpath, absent)
          (ground (
            arith,
            lookup-insert (tools.resolve root) (tools.resolve root) (new_classpath root g.world).0
                g.classpaths,
            text_eq_refl (tools.resolve root),
          ))
    | inr (path, known) ↦ rw (build_classpath, known) known
  ]

  -- What a class path was when it was first built it is ever after, whatever the world has become.
  pub build_classpath-cached :
      (root : Text) (g : Guard W) (w : W)
      → (build_classpath (some root) (record (build_classpath (some root) g).1 { world = w })).0
        ≡ (build_classpath (some root) g).0
  build_classpath-cached root g w =
      ap (λ (r : Option Text × Guard W). r.0)
        (build_classpath-known root (record (build_classpath (some root) g).1 { world = w })
          (build_classpath (some root) g).0 (build_classpath-lookup root g))
