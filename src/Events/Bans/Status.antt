-- ===== src/Events/Bans/Status.antt =====
-- Whether an account is barred, after the logs of the ban list (src/chain/event-processor.service.ts).
use numera_backend.Prelude.{
  ℕ, ◌≡◌, refl, sym, ap, ◌∙◌, Bool, true, false, Option, none, some, Text, to_lower, text_eq,
  text_eq_iff, if◌then◌else◌, arith, Bool-cases, inl, inr,
}
use numera_backend.Store.{Store, map_option, upsert}
use numera_backend.Events.Data.{
  BannedArgs, NormalizedLog, BlocklistEvent, banned, unbanned, other_blocklist_event,
}
use numera_backend.Events.Rows.{BannedAccount}
use numera_backend.Events.State.{Database, State, after}
use numera_backend.Events.Bans.{ban_row, on_banned, on_unbanned}
use numera_backend.Events.Batch.{Externals, apply_blocklist}

-- The filter of the readers: a row whose `liftedAt` is null.
abbrev is_active : Option ℕ → Bool
is_active none = true
is_active (some t) = false

abbrev is_barred_by : Option BannedAccount → Bool
is_barred_by none = false
is_barred_by (some b) = is_active b.lifted_at

-- What one event says of an account, `before` being its status so far.
unfoldable pub barred_after : BlocklistEvent → Text → Bool → Bool
barred_after (banned a) account before =
    if text_eq (to_lower a.account) account then true else before
barred_after (unbanned raw) account before =
    if text_eq (to_lower raw) account then false else before
barred_after other_blocklist_event account before = before

barred-write :
    (rows : Store Text BannedAccount) (t : rows.Table) (key account : Text) (row : BannedAccount)
    → row.lifted_at ≡ none
    → is_barred_by (rows.find (rows.write t key row) account)
      ≡ (if text_eq key account then true else is_barred_by (rows.find t account))
barred-write rows t key account row lifted = elim (Bool-cases (text_eq key account)) [
  | inl e ↦
      let here : key ≡ account = (text_eq_iff key account).0 e in
      ap (λ k. is_barred_by (rows.find (rows.write t key row) k)) (sym here)
      ∙ ap is_barred_by (rows.find-write_self t key row)
      ∙ ap is_active lifted
      ∙ sym (ap (λ b. if b then true else is_barred_by (rows.find t account)) e)
  | inr e ↦
      ap is_barred_by (
        rows.find-write_ne t key account row
          (λ h. ground (arith, e, (text_eq_iff key account).1 h)))
      ∙ sym (ap (λ b. if b then true else is_barred_by (rows.find t account)) e)
]

lifted :
    (b : Bool) (o : Option BannedAccount) (log : NormalizedLog)
    → is_barred_by (
        map_option
          (λ (r : BannedAccount).
            if b
            then record r { lifted_at = some log.timestamp; tx_hash = some log.tx_hash }
            else r)
          o)
      ≡ (if b then false else is_barred_by o)
lifted true none log = refl
lifted true (some r) log = refl
lifted false none log = refl
lifted false (some r) log = refl

text_eq_sym : (a b : Text) → text_eq a b ≡ text_eq b a
text_eq_sym a b = ground (arith, text_eq_iff a b, text_eq_iff b a)

written :
    (log : NormalizedLog) (a : BannedArgs) (o : Option BannedAccount)
    → (elim o as (λ _. BannedAccount) [ none ↦ ban_row log a | some old ↦ ban_row log a ]).lifted_at
      ≡ none
unfolding ban_row
written log a none = refl
written log a (some old) = refl

module _ {D : Database} where
  abbrev pub is_barred : Text → State D → Bool
  is_barred account s = is_barred_by (D.banned.find s.banned account)

  -- The stored status of an account follows the logs of the ban list: a ban bars it, whatever was
  -- before, lifting a ban frees it, and logs of other accounts leave it as it was.
  pub is_barred-apply_blocklist :
      (x : Externals) (log : NormalizedLog) (e : BlocklistEvent) (account : Text) (s : State D)
      → is_barred account (after (apply_blocklist x log e s))
        ≡ barred_after e account (is_barred account s)
  unfolding apply_blocklist barred_after on_banned on_unbanned upsert
  is_barred-apply_blocklist x log (banned a) account s =
      barred-write D.banned s.banned (to_lower a.account) account _
        (written log a (D.banned.find s.banned (to_lower a.account)))
  is_barred-apply_blocklist x log (unbanned raw) account s =
      ap is_barred_by (D.banned.find-update_many s.banned _ _ account)
      ∙ lifted (text_eq account (to_lower raw)) (D.banned.find s.banned account) log
      ∙ ap (λ b. if b then false else is_barred account s) (text_eq_sym account (to_lower raw))
  is_barred-apply_blocklist x log other_blocklist_event account s = refl
