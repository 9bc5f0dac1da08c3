-- ===== src/Daemon/Config/Sources.antt =====
-- crates/daemon/src/config.rs: which files the configuration is read from.
use fake_notify.Base.{
  ◌≡◌, refl, true, false, Option, none, some, List, [], ◌∷◌, ◌++◌, FilePath, Bool-cases, inl, inr,
  subst, sym, ◌∙◌, append-nil, ascii,
}
use fake_notify.Daemon.Config.{
  Surroundings, Source, serialized, toml_file, env_prefixed, default_paths, first_file, sources,
}

-- The files among the sources.
abbrev pub files_of : List Source → List FilePath
files_of [] = []
files_of (toml_file p ∷ ss) = p ∷ files_of ss
files_of (serialized c ∷ ss) = files_of ss
files_of (env_prefixed prefix separator ∷ ss) = files_of ss

files_of-append : (xs ys : List Source) → files_of (xs ++ ys) ≡ files_of xs ++ files_of ys
files_of-append [] ys = refl
files_of-append (toml_file p ∷ xs) ys = rw (files_of-append xs ys)
files_of-append (serialized c ∷ xs) ys = files_of-append xs ys
files_of-append (env_prefixed prefix separator ∷ xs) ys = files_of-append xs ys

-- The environment adds no file.
behind :
    (xs : List Source)
    → files_of (xs ++ (env_prefixed (ascii "FAKENOTIFYD_") (ascii "_") ∷ [])) ≡ files_of xs
behind xs = files_of-append xs _ ∙ append-nil (files_of xs)

module _ (host : Surroundings) where
  -- The file that is read at a list of locations: there, and behind locations without a file.
  pub data Chosen : List FilePath → List FilePath → Type 0 where
    nowhere : Chosen [] []
    here : {p : FilePath} {ps : List FilePath} → host.exists p ≡ true → Chosen (p ∷ ps) (p ∷ [])
    later :
        {p : FilePath} {ps qs : List FilePath}
        → host.exists p ≡ false
        → Chosen ps qs
        → Chosen (p ∷ ps) qs

  first_file-Chosen : (ps : List FilePath) → Chosen ps (files_of (first_file host ps))
  unfolding first_file
  first_file-Chosen [] = nowhere
  first_file-Chosen (p ∷ ps) = elim (Bool-cases (host.exists p)) [
    | inl there ↦ rw there (here there)
    | inr absent ↦ rw absent (later absent (first_file-Chosen ps))
  ]

  -- What is read for the file in the arguments, or for none.
  pub data Read : Option FilePath → List FilePath → Type 0 where
    given : (p : FilePath) → Read (some p) (p ∷ [])
    searched : {qs : List FilePath} → Chosen (default_paths host) qs → Read none qs

  -- With a file in the arguments, the configuration is read from that file alone; without one, from
  -- the first of the default locations that has a file, or from no file where none has.
  pub sources_files :
      (config_file : Option FilePath) → Read config_file (files_of (sources host config_file))
  unfolding sources
  sources_files (some path) = given path
  sources_files none = searched (
      subst (Chosen (default_paths host)) (sym (behind (first_file host (default_paths host))))
        (first_file-Chosen (default_paths host)))
