-- ===== src/Abuse/Scanner/Rules.antt =====
-- crates/weaver-abuse/src/scanner.rs: the tables of the rules, and the parts of a path that they read.
use tunnel_weaver.Base.{
  ℕ, ◌==◌, ◌||◌, ◌&&◌, Bool, true, false, List, [], ◌∷◌, ◌++◌, Option, none, some, bytes_eq,
  starts_with, ascii,
}

unfoldable pub is_in : List ℕ → List (List ℕ) → Bool
is_in s [] = false
is_in s (t ∷ ts) = bytes_eq s t || is_in s ts

-- The exact names of `is_risky_dotfile`.
unfoldable pub dotfile_risk_names : List (List ℕ)
dotfile_risk_names =
    ascii ".ds_store"
    ∷ ascii ".aws"
    ∷ ascii ".bash_history"
    ∷ ascii ".config"
    ∷ ascii ".docker"
    ∷ ascii ".dockercfg"
    ∷ ascii ".gnupg"
    ∷ ascii ".hg"
    ∷ ascii ".htaccess"
    ∷ ascii ".htpasswd"
    ∷ ascii ".idea"
    ∷ ascii ".mysql_history"
    ∷ ascii ".netrc"
    ∷ ascii ".npmrc"
    ∷ ascii ".psql_history"
    ∷ ascii ".pypirc"
    ∷ ascii ".python_history"
    ∷ ascii ".ssh"
    ∷ ascii ".svn"
    ∷ ascii ".terraform"
    ∷ ascii ".vscode"
    ∷ ascii ".wgetrc"
    ∷ ascii ".yarnrc"
    ∷ ascii ".zsh_history"
    ∷ []

unfoldable pub dotfile_risk_prefixes : List (List ℕ)
dotfile_risk_prefixes = ascii ".env" ∷ ascii ".git" ∷ []

abbrev pub starts_with_any : List (List ℕ) → List ℕ → Bool
starts_with_any [] s = false
starts_with_any (p ∷ ps) s = starts_with p s || starts_with_any ps s

unfoldable pub is_risky_dotfile : List ℕ → Bool
unfolding is_in dotfile_risk_names dotfile_risk_prefixes
is_risky_dotfile segment =
    starts_with_any dotfile_risk_prefixes segment || is_in segment dotfile_risk_names

-- The extensions of backups, and those of dumps and key material.
unfoldable pub leftover_extensions : List (List ℕ)
leftover_extensions =
    ascii "bak"
    ∷ ascii "backup"
    ∷ ascii "old"
    ∷ ascii "orig"
    ∷ ascii "save"
    ∷ ascii "swp"
    ∷ ascii "swo"
    ∷ ascii "tmp"
    ∷ ascii "dist"
    ∷ []

unfoldable pub secret_extensions : List (List ℕ)
secret_extensions =
    ascii "sql"
    ∷ ascii "sqlite"
    ∷ ascii "sqlite3"
    ∷ ascii "db"
    ∷ ascii "pem"
    ∷ ascii "key"
    ∷ ascii "p12"
    ∷ ascii "pfx"
    ∷ ascii "jks"
    ∷ ascii "keystore"
    ∷ ascii "ppk"
    ∷ ascii "htpasswd"
    ∷ ascii "htaccess"
    ∷ []

-- The first segments that are debug endpoints.
unfoldable pub debug_roots : List (List ℕ)
debug_roots =
    ascii "env"
    ∷ ascii "phpmyadmin"
    ∷ ascii "pma"
    ∷ ascii "myadmin"
    ∷ ascii "adminer"
    ∷ ascii "adminer.php"
    ∷ ascii "phpinfo.php"
    ∷ ascii "info.php"
    ∷ ascii "telescope"
    ∷ ascii "_debugbar"
    ∷ ascii "_profiler"
    ∷ ascii "server-status"
    ∷ ascii "server-info"
    ∷ ascii "trace.axd"
    ∷ ascii "elmah.axd"
    ∷ ascii "___proxy_subdomain_whm"
    ∷ ascii "___proxy_subdomain_cpanel"
    ∷ ascii "cgi-bin"
    ∷ ascii "wp-config.php"
    ∷ ascii "config.php"
    ∷ ascii "configuration.php"
    ∷ ascii "web.config"
    ∷ ascii "docker-compose.yml"
    ∷ ascii "docker-compose.yaml"
    ∷ ascii "dockerfile"
    ∷ ascii "composer.lock"
    ∷ ascii "package-lock.json"
    ∷ ascii "yarn.lock"
    ∷ ascii "credentials"
    ∷ ascii "credentials.json"
    ∷ ascii "secrets.json"
    ∷ ascii "config.json"
    ∷ ascii "config.yml"
    ∷ ascii "config.yaml"
    ∷ []

-- The first segments that the pairs are looked up for.
unfoldable pub pair_roots : List (List ℕ)
pair_roots =
    ascii "actuator"
    ∷ ascii "@vite"
    ∷ ascii "ecp"
    ∷ ascii "v2"
    ∷ ascii "_ignition"
    ∷ ascii "debug"
    ∷ ascii "solr"
    ∷ []

unfoldable pub debug_pairs : List (List ℕ × List ℕ)
debug_pairs =
    (ascii "actuator", ascii "env")
    ∷ (ascii "actuator", ascii "heapdump")
    ∷ (ascii "actuator", ascii "configprops")
    ∷ (ascii "@vite", ascii "env")
    ∷ (ascii "ecp", ascii "current")
    ∷ (ascii "v2", ascii "_catalog")
    ∷ (ascii "_ignition", ascii "execute-solution")
    ∷ (ascii "debug", ascii "default")
    ∷ (ascii "solr", ascii "admin")
    ∷ []

unfoldable pub is_pair : List ℕ → List ℕ → List (List ℕ × List ℕ) → Bool
is_pair first second [] = false
is_pair first second ((a, b) ∷ pairs) =
    bytes_eq first a && bytes_eq second b || is_pair first second pairs

unfoldable pub ends_with : List ℕ → List ℕ → Bool
ends_with p [] = bytes_eq p []
ends_with p (c ∷ cs) = bytes_eq p (c ∷ cs) || ends_with p cs

-- What follows the last dot: `rfind('.')`, and the slice behind it.
unfoldable pub extension : List ℕ → Option (List ℕ)
extension [] = none
extension (c ∷ cs) = elim (extension cs) [
  | some found ↦ some found
  | none ↦ elim (c == b'.') [ true ↦ some cs | false ↦ none ]
]

abbrev pub is_separator : ℕ → Bool
is_separator c = c == b'/' || c == b'\\'

abbrev pub non_empty : List ℕ → List (List ℕ) → List (List ℕ)
non_empty [] segments = segments
non_empty (c ∷ cs) segments = (c ∷ cs) ∷ segments

-- `split(['/', '\\'])` without the empty parts; `current` is the part that is being read.
unfoldable pub segments_from : List ℕ → List ℕ → List (List ℕ)
segments_from current [] = non_empty current []
segments_from current (c ∷ cs) = elim (is_separator c) [
  | true ↦ non_empty current (segments_from [] cs)
  | false ↦ segments_from (current ++ (c ∷ [])) cs
]

abbrev pub segments : List ℕ → List (List ℕ)
segments path = segments_from [] path
