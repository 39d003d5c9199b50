-- ===== src/Configuration/Tests.antt =====
-- A directory that has the example only.
use potat_api.Base.{
  ◌≡◌, refl, String, Bool, true, Option, some, Reply, value, absent, str_eq, eq_iff, arith,
  if◌then◌else◌,
}
use potat_api.Configuration.{Files, load_config, load_config-again}

abbrev Directory : Type 0
Directory = String → Reply String

abbrev write_file : String → String → Directory → Bool × Directory
write_file path text d = (true, λ p. if str_eq path p then value text else d p)

write_file-read :
    (path text : String) (d : Directory)
    → (write_file path text d).0 ≡ true
    → (write_file path text d).1 path ≡ value text
write_file-read path text d h = ground (arith, eq_iff path path)

abbrev directory : Files
directory = record {
  State = Directory;
  read = λ path d. d path;
  write = write_file;
  write-read = write_file-read;
}

abbrev fresh : Directory
fresh path = if str_eq path "exampleconfig.json" then value "{}" else absent

abbrev decode : String → Option String
decode text = some text

loaded : (load_config directory decode fresh).0 ≡ some "{}"
unfolding load_config
loaded = refl

load_config-again_example :
    load_config directory decode (load_config directory decode fresh).1
    ≡ (some "{}", (load_config directory decode fresh).1)
load_config-again_example = load_config-again directory decode fresh "{}" loaded
