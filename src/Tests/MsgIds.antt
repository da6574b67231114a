-- ===== src/Tests/MsgIds.antt =====
-- Lookups in a table of message names, and its reading, at concrete inputs.
use hurd.Base.{ℕ, ◌≡◌, refl, false, none, some, Option, List, [], ◌∷◌, if◌then◌else◌, ◌==◌, arith}
use hurd.Netmsg.MsgIds.{Text, MsgidInfo, HashTable, reply_info}
use hurd.Netmsg.MsgIds.Lookup.{describe, lookups, lookups-describe}
use hurd.Netmsg.MsgIds.Options.{
  Disk, lines, Options, MsgidsOption, list_file, list_dir, parse_opts, parse_opt, parse_files,
  parse_msgid_list, parse_lines, scan_msgids_dir, add_files, path,
}
use hurd.Netmsg.MsgIds.Override.{parse_opts-named}

-- A table that is a function, where adding always succeeds.
abbrev put : ℕ → MsgidInfo → (ℕ → Option MsgidInfo) → ℕ → Option MsgidInfo
put k info t j = if j == k then some info else t j

functions_find-add :
    (j k : ℕ) (info : MsgidInfo) (t t' : ℕ → Option MsgidInfo)
    → some (put k info t) ≡ some t'
    → t' j ≡ (if j == k then some info else t j)
functions_find-add j k info t t' e = ground (arith, e)

abbrev functions : HashTable
functions = record {
  Table = ℕ → Option MsgidInfo;
  empty = λ k. none;
  find = λ k t. t k;
  add = λ k info t. some (put k info t);
  find-empty = λ k. refl;
  find-add = functions_find-add;
}

abbrev info : ℕ → MsgidInfo
info n = record { name = n ∷ []; subsystem = [] }

abbrev requests : ℕ → Option MsgidInfo
requests k = if k == 2000 then some (info 1) else none

-- A request, its reply twice, and a number without a name.
lookups-describe_example :
    lookups functions (2100 ∷ 2000 ∷ 2100 ∷ 2200 ∷ []) requests
    ≡ some (reply_info (info 1)) ∷ some (info 1) ∷ some (reply_info (info 1)) ∷ none ∷ []
unfolding describe
lookups-describe_example = lookups-describe functions (2100 ∷ 2000 ∷ 2100 ∷ 2200 ∷ []) requests

-- A file "n" has a comment and the line "n", an entry for the number 9; the standard directory
-- and any other list the files "1" and "2".
abbrev disk : Disk
disk = record {
  file = λ name. lines ((35 ∷ []) ∷ name ∷ []);
  listing = λ dir. (1 ∷ []) ∷ (2 ∷ []) ∷ [];
  scan = λ line. some (9, record { name = line; subsystem = [] });
}

abbrev options : List MsgidsOption
options = list_file (7 ∷ []) ∷ list_dir (5 ∷ []) ∷ []

abbrev files : List Text
files =
    path (48 ∷ []) (2 ∷ [])
    ∷ path (48 ∷ []) (1 ∷ [])
    ∷ (7 ∷ [])
    ∷ path (5 ∷ []) (1 ∷ [])
    ∷ path (5 ∷ []) (2 ∷ [])
    ∷ []

abbrev read_names : List Text → (ℕ → Option MsgidInfo) → ℕ → Option MsgidInfo
read_names [] t = t
read_names (name ∷ names) t = read_names names (put 9 (record { name = name; subsystem = [] }) t)

abbrev loaded : Options (ℕ → Option MsgidInfo)
loaded = record {
  argz = files;
  nostdinc = false;
  loading = record { table = read_names files requests; complaints = []; err = 0 };
}

parse_opts-named_example :
    loaded.loading.table 9 ≡ some (record { name = path (5 ∷ []) (2 ∷ []); subsystem = [] })
unfolding parse_opts parse_opt parse_files parse_msgid_list parse_lines scan_msgids_dir add_files
parse_opts-named_example = parse_opts-named functions disk (48 ∷ []) options requests loaded 9 refl
