-- ===== src/Netmsg/MsgIds/Options.antt =====
-- netmsg/msgids.c: parse_msgid_list, scan_msgids_dir and parse_opt, which fill the table of message
-- names. An argz vector is the list of its texts.
use hurd.Base.{
  ℕ, ◌+◌, Bool, true, false, ◌||◌, Option, none, some, List, [], ◌∷◌, ◌++◌, if◌then◌else◌, ◌==◌,
}
use hurd.Netmsg.MsgIds.{Text, MsgidInfo, HashTable}

-- What fopen and getline give: an error, or the lines.
pub data File : Type 0 where
  unreadable : ℕ → File
  lines : List Text → File

-- The files, what scandir lists of a directory with msgids_file_p (nothing, if it fails), and what
-- sscanf reads in a line, if it converts all three fields.
pub record Disk : Type 0 where
  pub file : Text → File
  pub listing : Text → List Text
  pub scan : Text → Option (ℕ × MsgidInfo)

-- "DIR/NAME".
abbrev pub path : Text → Text → Text
path dir name = dir ++ (47 ∷ name)

-- `buffer[0] == '#' || buffer[0] == '\0'`.
abbrev pub is_skipped : Text → Bool
is_skipped [] = true
is_skipped (c ∷ line) = c == 35 || c == 0

pub data OptKey : Type 0 where
  key_init opt_nostdinc no_args positional key_end unknown_key : OptKey
  rpc_list include_dir : Text → OptKey

abbrev pub einval : ℕ
einval = 0x40000016

abbrev pub enomem : ℕ
enomem = 0x4000000c

abbrev pub argp_err_unknown : ℕ
argp_err_unknown = 7

-- The table, the lines that error () names, each with its file, and the function's result.
pub record Loading (Table : Type 0) : Type 0 where
  pub table : Table
  pub complaints : List (Text × ℕ)
  pub err : ℕ

abbrev pub store_entry :
    {Table : Type 0} → Option Table → (Table → Loading Table) → Loading Table → Loading Table
store_entry none rest st = record st { err = enomem }
store_entry (some t) rest st = rest t

-- The loop of scan_msgids_dir: argz_add, or argz_insert before the first.
unfoldable pub add_files : Bool → Text → List Text → List Text → List Text
add_files append dir [] argz = argz
add_files append dir (name ∷ names) argz =
    add_files append dir names (if append then argz ++ path dir name ∷ [] else path dir name ∷ argz)

unfoldable pub scan_msgids_dir : Disk → Text → Bool → List Text → List Text
unfolding add_files
scan_msgids_dir disk dir append argz = add_files append dir (disk.listing dir) argz

pub record Options (Table : Type 0) : Type 0 where
  pub argz : List Text
  pub nostdinc : Bool
  pub loading : Loading Table

-- parse_opt returns an error, or argp_failure ends the program.
pub data OptResult (Table : Type 0) : Type 0 where
  opt_returns : ℕ → Options Table → OptResult Table
  opt_exits : ℕ → OptResult Table

abbrev pub after_parse : {Table : Type 0} → Options Table → Loading Table → OptResult Table
after_parse st done =
    if done.err == 0 then opt_returns 0 (record st { loading = done }) else opt_exits done.err

module _ (h : HashTable) (disk : Disk) where
  open h use {Table, add}

  -- The loop of parse_msgid_list, LINENO lines behind.
  unfoldable pub parse_lines : Text → ℕ → List Text → Loading Table → Loading Table
  parse_lines filename lineno [] st = st
  parse_lines filename lineno (line ∷ rest) st =
      let next = parse_lines filename (lineno + 1) rest in
      if is_skipped line then next st else (elim (disk.scan line) [
        | none ↦ next (record st { complaints = st.complaints ++ (filename, lineno + 1) ∷ [] })
        | some (msgid, info) ↦
            store_entry (add msgid info st.table) (λ t. next (record st { table = t })) st
      ])

  unfoldable pub parse_msgid_list : Text → Loading Table → Loading Table
  parse_msgid_list filename st = elim (disk.file filename) [
    | unreadable errno ↦ record st { err = errno }
    | lines ls ↦ parse_lines filename 0 ls st
  ]

  -- The loop over the files, which an error ends.
  unfoldable pub parse_files : List Text → Loading Table → Loading Table
  parse_files [] st = st
  parse_files (filename ∷ files) st =
      let st' = parse_msgid_list filename st in
      let rest = parse_files files st' in if st'.err == 0 then rest else st'

  -- STD_DIR is STD_MSGIDS_DIR.
  unfoldable pub parse_opt : Text → OptKey → Options Table → OptResult Table
  parse_opt std_dir key_init st = opt_returns 0 st
  parse_opt std_dir opt_nostdinc st = opt_returns 0 (record st { nostdinc = true })
  parse_opt std_dir (rpc_list file) st = opt_returns 0 (record st { argz = st.argz ++ file ∷ [] })
  parse_opt std_dir (include_dir dir) st =
      opt_returns 0 (record st { argz = scan_msgids_dir disk dir true st.argz })
  parse_opt std_dir no_args st = opt_returns 0 st
  parse_opt std_dir positional st = opt_returns einval st
  parse_opt std_dir key_end st =
      let files = if st.nostdinc then st.argz else scan_msgids_dir disk std_dir false st.argz in
      after_parse (record st { argz = files }) (parse_files files st.loading)
  parse_opt std_dir unknown_key st = opt_returns argp_err_unknown st

-- An option on the command line, and the key that parse_opt is called with.
pub data MsgidsOption : Type 0 where
  std_excluded : MsgidsOption
  list_file list_dir : Text → MsgidsOption

abbrev pub key_of : MsgidsOption → OptKey
key_of std_excluded = opt_nostdinc
key_of (list_file file) = rpc_list file
key_of (list_dir dir) = include_dir dir

module _ (h : HashTable) (disk : Disk) (std_dir : Text) where
  open h use {Table}

  abbrev pub after_opt : (Options Table → OptResult Table) → OptResult Table → OptResult Table
  after_opt rest (opt_returns err st) = if err == 0 then rest st else opt_returns err st
  after_opt rest (opt_exits err) = opt_exits err

  -- The calls that argp makes: one for each option, in their order, and one at the end.
  unfoldable pub parse_opts : List MsgidsOption → Options Table → OptResult Table
  parse_opts [] st = parse_opt h disk std_dir key_end st
  parse_opts (opt ∷ opts) st =
      after_opt (parse_opts opts) (parse_opt h disk std_dir (key_of opt) st)
