-- ===== src/Configuration.antt =====
-- LoadConfig of common/utils/config.go. The file system and the JSON decoder are parameters; a panic is
-- none.
mod Tests
use potat_api.Base.{
  ◌≡◌, refl, ap, ◌∙◌, ◌⊎◌, inl, inr, String, Bool, true, false, Option, none, some, Reply,
  Reply-cases, value, absent, fault, Bool-cases, Option-cases, some_inj, if◌then◌else◌,
}

pub record Files : Type 1 where
  pub State : Type 0
  -- ReadFile; `absent` is the error that IsNotExist accepts.
  pub read : String → State → Reply String
  -- WriteFile, and whether it succeeds.
  pub write : String → String → State → Bool × State
  -- What was written is read.
  pub write-read :
      (path text : String) (s : State)
      → (write path text s).0 ≡ true
      → read path (write path text s).1 ≡ value text

module _ (files : Files) {C : Type 0} (decode : String → Option C) where
  open files use {State, read, write, write-read}

  abbrev pub copied : String → Bool × State → Option String × State
  copied text (true, s) = (some text, s)
  copied text (false, s) = (none, s)

  abbrev pub copy_read : Reply String → State → Option String × State
  copy_read (value text) s = copied text (write "config.json" text s)
  copy_read absent s = (none, s)
  copy_read fault s = (none, s)

  unfoldable pub copy_example_config : State → Option String × State
  copy_example_config s = copy_read (read "exampleconfig.json" s) s

  abbrev pub load_read : Reply String → State → Option String × State
  load_read (value text) s = (some text, s)
  load_read absent s = copy_example_config s
  load_read fault s = (none, s)

  unfoldable pub load_or_copy : State → Option String × State
  unfolding copy_example_config
  load_or_copy s = load_read (read "config.json" s) s

  abbrev pub decoded : Option String × State → Option C × State
  decoded (none, s) = (none, s)
  decoded (some text, s) = (decode text, s)

  unfoldable pub load_config : State → Option C × State
  unfolding load_or_copy
  load_config s = decoded (load_or_copy s)

  -- The text is that of config.json.
  abbrev IsStored : Option String × State → Type 0
  IsStored result =
      (text : String) → result.0 ≡ some text → read "config.json" result.1 ≡ value text

  copied-IsStored :
      (text : String) (written : Bool × State)
      → (written.0 ≡ true → read "config.json" written.1 ≡ value text)
      → IsStored (copied text written)
  copied-IsStored text (true, s) h t e = h refl ∙ ap value (some_inj e)
  copied-IsStored text (false, s) h t e = absurd (cc)

  copy_read-IsStored : (r : Reply String) (s : State) → IsStored (copy_read r s)
  copy_read-IsStored (value text) s t e =
      copied-IsStored text (write "config.json" text s) (write-read "config.json" text s) t e
  copy_read-IsStored absent s t e = absurd (cc)
  copy_read-IsStored fault s t e = absurd (cc)

  load_read-IsStored :
      (r : Reply String) (s : State) → read "config.json" s ≡ r → IsStored (load_read r s)
  unfolding copy_example_config
  load_read-IsStored (value text) s there t e = there ∙ ap value (some_inj e)
  load_read-IsStored absent s there t e = copy_read-IsStored (read "exampleconfig.json" s) s t e
  load_read-IsStored fault s there t e = absurd (cc)

  load_stored :
      (result : Option String × State) (c : C)
      → IsStored result
      → (decoded result).0 ≡ some c
      → load_config (decoded result).1 ≡ (some c, (decoded result).1)
  unfolding load_config
  load_stored (none, s) c stored loaded = absurd (cc)
  load_stored (some text, s) c stored loaded = rw (stored text refl, loaded) refl

  -- A configuration that was loaded, perhaps by copying the example, is loaded again as the same one,
  -- and loading it again changes no file.
  pub load_config-again :
      (s : State) (c : C)
      → (load_config s).0 ≡ some c
      → load_config (load_config s).1 ≡ (some c, (load_config s).1)
  unfolding load_config
  load_config-again s c loaded =
      load_stored (load_or_copy s) c (load_read-IsStored (read "config.json" s) s refl) loaded
