-- ===== src/Netmsg/MsgIds/Lookup.antt =====
-- netmsg/msgids.c: the names that msgid_info keeps for later do not show.
use hurd.Base.{
  ℕ, ◌-◌, ◌/◌, ◌%◌, ◌≡◌, refl, ◌∙◌, sym, true, false, Option, none, some, List, [], ◌∷◌, map,
  if◌then◌else◌, ◌==◌, Bool-cases, Option-cases, inl, inr, arith, ap, ==_iff,
}
use mathlib.Core.Path.{fun_ext}
use mathlib.Core.Option
use hurd.Netmsg.MsgIds.{MsgidInfo, HashTable, reply_info, stash_reply, msgid_info}

map-same {ℓ κ} :
    {A : Type ℓ} {B : Type κ} (f g : A → B)
    → ((a : A) → f a ≡ g a)
    → (xs : List A) → map f xs ≡ map g xs
map-same f g e xs = ap (λ k. map k xs) (fun_ext e)

module _ (h : HashTable) where
  open h use {Table, find, add, find-add}

  -- The name of a message in a table of requests: its own, or, for a number that a reply has, the
  -- name of the reply to its request.
  unfoldable pub describe : Table → ℕ → Option MsgidInfo
  describe t msgid = elim (find msgid t) [
    | some info ↦ some info
    | none ↦
        if msgid / 100 % 2 == 1
        then (elim (find (msgid - 100) t) [ none ↦ none | some info ↦ some (reply_info info) ])
        else none
  ]

  -- The results of lookups, one after the other, each on the table that the one before leaves.
  unfoldable pub lookups : List ℕ → Table → List (Option MsgidInfo)
  unfolding msgid_info
  lookups [] t = []
  lookups (msgid ∷ msgids) t =
      let (info, t') = msgid_info h true msgid t in info ∷ lookups msgids t'

  module _ (t : Table) (msgid : ℕ) where
    describe_own : (info : MsgidInfo) → find msgid t ≡ some info → describe t msgid ≡ some info
    unfolding describe
    describe_own info e = ground (arith, e)

    describe-none : find msgid t ≡ none → (msgid / 100 % 2 == 1) ≡ false → describe t msgid ≡ none
    unfolding describe
    describe-none e r = ground (arith, e, r)

    describe_reply :
        find msgid t ≡ none
        → (msgid / 100 % 2 == 1) ≡ true
        → describe t msgid ≡ Option.map reply_info (find (msgid - 100) t)
    unfolding describe
    describe_reply e r = ground (arith, e, r)

  module _ (msgid : ℕ) (info : MsgidInfo) (t t' : Table) (missing : find msgid t ≡ none)
      (is_reply : (msgid / 100 % 2 == 1) ≡ true) (request : find (msgid - 100) t ≡ some info)
      (added : add msgid (reply_info info) t ≡ some t') where
    -- An entry for a reply does not become the request of another reply.
    describe-add : (j : ℕ) → describe t' j ≡ describe t j
    unfolding describe
    describe-add j =
        let at_j = find-add j msgid (reply_info info) t t' added in
        elim (Bool-cases (j == msgid)) [
          | inl e ↦
              let same : j ≡ msgid = (==_iff j msgid).0 e in
              ground (arith, at_j, same, missing, is_reply, request)
          | inr e ↦ ground (arith, at_j, find-add (j - 100) msgid (reply_info info) t t' added)
        ]

  -- What a lookup returns, and that the table that it leaves says the same.
  Keeps : ℕ → Table → Option MsgidInfo × Table → Type 0
  Keeps msgid t found = (found.0 ≡ describe t msgid) × ((j : ℕ) → describe found.1 j ≡ describe t j)

  stash_reply-Keeps :
      (msgid : ℕ) (t : Table) (request : Option MsgidInfo)
      → find msgid t ≡ none
      → (msgid / 100 % 2 == 1) ≡ true
      → find (msgid - 100) t ≡ request
      → Keeps msgid t (stash_reply h true msgid request t)
  unfolding stash_reply Keeps
  stash_reply-Keeps msgid t none e r q =
      (sym (describe_reply t msgid e r ∙ ap (Option.map reply_info) q), λ j. refl)
  stash_reply-Keeps msgid t (some info) e r q =
      let reply : some (reply_info info) ≡ describe t msgid =
        sym (describe_reply t msgid e r ∙ ap (Option.map reply_info) q) in
      elim (Option-cases (add msgid (reply_info info) t)) [
        | inl a ↦ rw a (reply, λ j. refl)
        | inr (t', a) ↦ rw a (reply, λ j. describe-add msgid info t t' e r q a j)
      ]

  -- One lookup, when malloc succeeds.
  msgid_info-Keeps : (msgid : ℕ) (t : Table) → Keeps msgid t (msgid_info h true msgid t)
  unfolding msgid_info Keeps
  msgid_info-Keeps msgid t = elim (Option-cases (find msgid t)) [
    | inr (info, e) ↦ rw (e, msgid_info) (sym (describe_own t msgid info e), λ j. refl)
    | inl e ↦ elim (Bool-cases (msgid / 100 % 2 == 1)) [
      | inr r ↦ rw (e, msgid_info) (rw r (sym (describe-none t msgid e r), λ j. refl))
      | inl r ↦ rw (e, msgid_info) (rw r (stash_reply-Keeps msgid t _ e r refl))
    ]
  ]

  -- The names that msgid_info stashes in the table do not show: where malloc succeeds, any sequence of
  -- lookups gives what the table that it begins with says of each number by itself, whether or not
  -- there is memory for the new entries.
  pub lookups-describe : (msgids : List ℕ) (t : Table) → lookups msgids t ≡ map (describe t) msgids
  unfolding lookups Keeps
  lookups-describe [] t = refl
  lookups-describe (msgid ∷ msgids) t =
      let one = msgid_info-Keeps msgid t in
      let rest : lookups msgids (msgid_info h true msgid t).1 ≡ map (describe t) msgids =
        lookups-describe msgids (msgid_info h true msgid t).1 ∙ map-same _ _ one.1 msgids in
      λ i. one.0 i ∷ rest i
