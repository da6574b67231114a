-- ===== src/Netmsg/MsgIds/Override.antt =====
-- netmsg/msgids.c: which entry of the lists a message name comes from.
use hurd.Base.{
  ℕ, ◌≡◌, refl, sym, ap, ◌∙◌, Bool, true, false, ◌||◌, List, [], ◌∷◌, ◌++◌, if◌then◌else◌,
  append_assoc, append-nil, arith, Bool-cases, inl, inr,
}
use mathlib.Core.List.{reverse, reverse-append}
use hurd.Netmsg.MsgIds.{Text, HashTable}
use hurd.Netmsg.MsgIds.Options.{
  Disk, path, key_end, Loading, parse_files, add_files, scan_msgids_dir, Options, MsgidsOption,
  std_excluded, list_file, list_dir, parse_opts, opt_returns, after_parse, parse_opt,
}
use hurd.Netmsg.MsgIds.Entries.{named, paths, entries, named_files, excludes_std, parse_files-named}

add_files-append :
    (dir : Text) (names argz : List Text) → add_files true dir names argz ≡ argz ++ paths dir names
unfolding add_files
add_files-append dir [] argz = sym (append-nil argz)
add_files-append dir (name ∷ names) argz =
    add_files-append dir names (argz ++ path dir name ∷ [])
    ∙ append_assoc argz (path dir name ∷ []) (paths dir names)

add_files-insert :
    (dir : Text) (names argz : List Text)
    → add_files false dir names argz ≡ reverse (paths dir names) ++ argz
unfolding add_files
add_files-insert dir [] argz = refl
add_files-insert dir (name ∷ names) argz =
    add_files-insert dir names (path dir name ∷ argz)
    ∙ sym (
        ap (λ l. l ++ argz) (reverse-append (path dir name ∷ []) (paths dir names))
        ∙ append_assoc (reverse (paths dir names)) (path dir name ∷ []) argz)

-- Before the first option.
abbrev pub no_files : {Table : Type 0} → Table → Options Table
no_files t = record {
  argz = [];
  nostdinc = false;
  loading = record { table = t; complaints = []; err = 0 };
}

module _ (h : HashTable) (disk : Disk) (std_dir : Text) where
  open h use {Table, find}

  -- The files of the standard directory, each before those that the listing names before it.
  abbrev pub std_files : Bool → List Text
  std_files excluded = if excluded then [] else reverse (paths std_dir (disk.listing std_dir))

  -- The files that are read at the end.
  end_files :
      (st : Options Table)
      → (if st.nostdinc then st.argz else scan_msgids_dir disk std_dir false st.argz)
        ≡ std_files st.nostdinc ++ st.argz
  unfolding scan_msgids_dir
  end_files st = elim (Bool-cases st.nostdinc) [
    | inl b ↦ simp b
    | inr b ↦ simp b (add_files-insert std_dir (disk.listing std_dir) st.argz)
  ]

  after_parse-done :
      (st done : Options Table) (l : Loading Table)
      → after_parse st l ≡ opt_returns 0 done
      → (l.err ≡ 0) × (done.loading ≡ l)
  after_parse-done st done l e = ground (arith, e)

  parse_opt-end :
      (st : Options Table) (k : ℕ) (done : Options Table)
      → st.loading.err ≡ 0
      → parse_opt h disk std_dir key_end st ≡ opt_returns 0 done
      → find k done.loading.table
        ≡ named k (entries disk (std_files st.nostdinc ++ st.argz)) (find k st.loading.table)
  unfolding parse_opt
  parse_opt-end st k done z e =
      let files : List Text =
        if st.nostdinc then st.argz else scan_msgids_dir disk std_dir false st.argz in
      let l : Loading Table = parse_files h disk files st.loading in
      let ends = after_parse-done (record st { argz = files }) done l e in
      ap (λ (x : Loading Table). find k x.table) ends.1
      ∙ parse_files-named h disk k files st.loading z ends.0
      ∙ ap (λ x. named k (entries disk x) (find k st.loading.table)) (end_files st)

  parse_opts-files :
      (opts : List MsgidsOption) (st : Options Table) (k : ℕ) (done : Options Table)
      → st.loading.err ≡ 0
      → parse_opts h disk std_dir opts st ≡ opt_returns 0 done
      → find k done.loading.table
        ≡ named k
            (entries disk
              (std_files (st.nostdinc || excludes_std opts) ++ (st.argz ++ named_files disk opts)))
            (find k st.loading.table)
  unfolding parse_opts parse_opt scan_msgids_dir
  parse_opts-files [] st k done z e = elim (Bool-cases st.nostdinc) [
    | inl b ↦ ground (arith, b, append-nil st.argz, parse_opt-end st k done z e)
    | inr b ↦ ground (arith, b, append-nil st.argz, parse_opt-end st k done z e)
  ]
  parse_opts-files (std_excluded ∷ opts) st k done z e =
      ground (arith, parse_opts-files opts (record st { nostdinc = true }) k done z e)
  parse_opts-files (list_file file ∷ opts) st k done z e = ground (
    arith,
    append_assoc st.argz (file ∷ []) (named_files disk opts),
    parse_opts-files opts (record st { argz = st.argz ++ file ∷ [] }) k done z e,
  )
  parse_opts-files (list_dir dir ∷ opts) st k done z e = ground (
    arith,
    add_files-append dir (disk.listing dir) st.argz,
    append_assoc st.argz (paths dir (disk.listing dir)) (named_files disk opts),
    parse_opts-files opts (record st { argz = scan_msgids_dir disk dir true st.argz }) k done z e,
  )

  -- Where parse_opt, called for each option and at the end, returns 0, a message number has the name
  -- that the last entry for it gives, in this order of the files: those of the standard directory, the
  -- last listed first, unless an option excludes them, and then those that the options name, in the
  -- order of the options, a directory's in the order of its listing. A number without an entry keeps
  -- what the table had.
  pub parse_opts-named :
      (opts : List MsgidsOption) (t : Table) (done : Options Table) (k : ℕ)
      → parse_opts h disk std_dir opts (no_files t) ≡ opt_returns 0 done
      → find k done.loading.table
        ≡ named k (entries disk (std_files (excludes_std opts) ++ named_files disk opts)) (find k t)
  parse_opts-named opts t done k e = parse_opts-files opts (no_files t) k done refl e
