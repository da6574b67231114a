-- ===== src/Netmsg/MsgIds/Entries.antt =====
-- netmsg/msgids.c: what the lists of message names say, and that reading them fills the table so.
use hurd.Base.{
  ℕ, ◌+◌, ◌≡◌, refl, Bool, true, false, Option, none, some, List, [], ◌∷◌, ◌++◌, map, if◌then◌else◌,
  ◌==◌, arith, Bool-cases, Option-cases, inl, inr, ◌⊎◌,
}
use hurd.Netmsg.MsgIds.{Text, MsgidInfo, HashTable}
use hurd.Netmsg.MsgIds.Options.{
  File, unreadable, lines, Disk, path, is_skipped, Loading, parse_lines, parse_msgid_list,
  parse_files, MsgidsOption, std_excluded, list_file, list_dir,
}

abbrev pub Entry : Type 0
Entry = ℕ × MsgidInfo

-- The last entry for a number, if there is one.
abbrev pub named : ℕ → List Entry → Option MsgidInfo → Option MsgidInfo
named k [] before = before
named k ((j, info) ∷ entries) before = named k entries (if k == j then some info else before)

named-append :
    (k : ℕ) (xs ys : List Entry) (before : Option MsgidInfo)
    → named k (xs ++ ys) before ≡ named k ys (named k xs before)
named-append k [] ys before = refl
named-append k ((j, info) ∷ xs) ys before =
    named-append k xs ys (if k == j then some info else before)

abbrev pub of_option {ℓ} : {A : Type ℓ} → Option A → List A
of_option none = []
of_option (some a) = a ∷ []

-- The files in a directory, in the order of its listing.
abbrev pub paths : Text → List Text → List Text
paths dir names = map (path dir) names

File-cases :
    (f : File) → ((errno : ℕ) × (f ≡ unreadable errno)) ⊎ ((ls : List Text) × (f ≡ lines ls))
File-cases (unreadable errno) = inl (errno, refl)
File-cases (lines ls) = inr (ls, refl)

module _ (disk : Disk) where
  abbrev pub line_entries : List Text → List Entry
  line_entries [] = []
  line_entries (line ∷ rest) =
      (if is_skipped line then [] else of_option (disk.scan line)) ++ line_entries rest

  abbrev pub entries_in : File → List Entry
  entries_in (unreadable errno) = []
  entries_in (lines ls) = line_entries ls

  abbrev pub entries : List Text → List Entry
  entries [] = []
  entries (filename ∷ files) = entries_in (disk.file filename) ++ entries files

  -- The files that the options name.
  abbrev pub named_files : List MsgidsOption → List Text
  named_files [] = []
  named_files (std_excluded ∷ opts) = named_files opts
  named_files (list_file file ∷ opts) = file ∷ named_files opts
  named_files (list_dir dir ∷ opts) = paths dir (disk.listing dir) ++ named_files opts

-- An option `--nostdinc` is among them.
abbrev pub excludes_std : List MsgidsOption → Bool
excludes_std [] = false
excludes_std (std_excluded ∷ opts) = true
excludes_std (list_file file ∷ opts) = excludes_std opts
excludes_std (list_dir dir ∷ opts) = excludes_std opts

module _ (h : HashTable) (disk : Disk) (k : ℕ) where
  open h use {Table, find, add, find-add}

  parse_lines-named :
      (filename : Text) (lineno : ℕ) (ls : List Text) (st : Loading Table)
      → st.err ≡ 0
      → (parse_lines h disk filename lineno ls st).err ≡ 0
      → find k (parse_lines h disk filename lineno ls st).table
        ≡ named k (line_entries disk ls) (find k st.table)
  unfolding parse_lines
  parse_lines-named filename lineno [] st z e = refl
  parse_lines-named filename lineno (line ∷ ls) st z e = elim (Bool-cases (is_skipped line)) [
    | inl b ↦ ground (arith, b, e, parse_lines-named filename (lineno + 1) ls st z)
    | inr b ↦ elim (Option-cases (disk.scan line)) [
      | inl n ↦
          let st' : Loading Table = record st {
            complaints = st.complaints ++ (filename, lineno + 1) ∷ [];
          } in
          ground (arith, b, n, e, parse_lines-named filename (lineno + 1) ls st' z)
      | inr ((msgid, info), n) ↦ elim (Option-cases (add msgid info st.table)) [
        | inl a ↦ ground (arith, b, n, a, e)
        | inr (t, a) ↦ ground (
          arith,
          b,
          n,
          a,
          e,
          find-add k msgid info st.table t a,
          parse_lines-named filename (lineno + 1) ls (record st { table = t }) z,
        )
      ]
    ]
  ]

  parse_msgid_list-named :
      (filename : Text) (st : Loading Table)
      → st.err ≡ 0
      → (parse_msgid_list h disk filename st).err ≡ 0
      → find k (parse_msgid_list h disk filename st).table
        ≡ named k (entries_in disk (disk.file filename)) (find k st.table)
  unfolding parse_msgid_list
  parse_msgid_list-named filename st z e = elim (File-cases (disk.file filename)) [
    | inl (errno, f) ↦ ground (arith, f, e)
    | inr (ls, f) ↦ ground (arith, f, e, parse_lines-named filename 0 ls st z)
  ]

  pub parse_files-named :
      (files : List Text) (st : Loading Table)
      → st.err ≡ 0
      → (parse_files h disk files st).err ≡ 0
      → find k (parse_files h disk files st).table ≡ named k (entries disk files) (find k st.table)
  unfolding parse_files
  parse_files-named [] st z e = refl
  parse_files-named (filename ∷ files) st z e =
      let st' : Loading Table = parse_msgid_list h disk filename st in
      elim (Bool-cases (st'.err == 0)) [
        | inl b ↦ ground (
          arith,
          b,
          e,
          z,
          parse_msgid_list-named filename st z,
          parse_files-named files st',
          named-append k (entries_in disk (disk.file filename)) (entries disk files)
              (find k st.table),
        )
        | inr b ↦ ground (arith, b, e)
      ]
