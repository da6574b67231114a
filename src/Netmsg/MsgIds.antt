-- ===== src/Netmsg/MsgIds.antt =====
-- netmsg/msgids.c: the table of message names, its lookup, and how it is read from lists in files.
-- A text is the list of its bytes. Message numbers are not negative. libihash is the interface
-- `HashTable`; the files, the directories and sscanf are parameters.
pub mod Lookup
pub mod Options
pub mod Entries
pub mod Override
use hurd.Base.{
  ℕ, ◌+◌, ◌-◌, ◌/◌, ◌%◌, ◌≡◌, Bool, true, false, not, ◌&&◌, ◌||◌, Option, none, some, List, [], ◌∷◌,
  ◌++◌, if◌then◌else◌, ◌==◌,
}

abbrev pub Text : Type 0
Text = List ℕ

-- struct msgid_info.
pub record MsgidInfo : Type 0 where
  pub name : Text
  pub subsystem : Text

-- libihash, as documented: an entry that is added is found under its key in place of an earlier one,
-- and the others are found as before. Adding fails, if it does, for want of memory.
pub record HashTable : Type 1 where
  pub Table : Type 0
  pub empty : Table
  pub find : ℕ → Table → Option MsgidInfo
  pub add : ℕ → MsgidInfo → Table → Option Table
  pub find-empty : (k : ℕ) → find k empty ≡ none
  pub find-add :
      (j k : ℕ) (info : MsgidInfo) (t t' : Table)
      → add k info t ≡ some t'
      → find j t' ≡ (if j == k then some info else find j t)

-- "%s-reply".
abbrev pub reply_suffix : Text
reply_suffix = 45 ∷ 114 ∷ 101 ∷ 112 ∷ 108 ∷ 121 ∷ []

abbrev pub reply_info : MsgidInfo → MsgidInfo
reply_info info = record { name = info.name ++ reply_suffix; subsystem = info.subsystem }

abbrev pub or_else {ℓ} : {A : Type ℓ} → Option A → A → A
or_else none a = a
or_else (some b) a = b

module _ (h : HashTable) where
  open h use {Table, find, add}

  -- The request was found: its reply gets a name, and an entry if there is memory for it.
  unfoldable pub stash_reply : Bool → ℕ → Option MsgidInfo → Table → Option MsgidInfo × Table
  stash_reply memory msgid none t = (none, t)
  stash_reply memory msgid (some info) t =
      if memory
      then (some (reply_info info), or_else (add msgid (reply_info info) t) t)
      else (none, t)

  -- MEMORY: whether malloc succeeds.
  unfoldable pub msgid_info : Bool → ℕ → Table → Option MsgidInfo × Table
  unfolding stash_reply
  msgid_info memory msgid t = elim (find msgid t) [
    | some info ↦ (some info, t)
    | none ↦
        if msgid / 100 % 2 == 1
        then stash_reply memory msgid (find (msgid - 100) t) t
        else (none, t)
  ]
