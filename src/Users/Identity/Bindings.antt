-- ===== src/Users/Identity/Bindings.antt =====
-- Bindings are for good.
use numera_backend.Prelude.{
  ◌≡◌, ◌≢◌, ◌⊎◌, inl, inr, refl, ap, ◌∙◌, true, not, Option, none, some, List, [], ◌∷◌, Text,
  text_eq, text_eq_iff, text_cases, Bool-cases, guarded, guarded_elim,
}
use numera_backend.Store.{Store}
use numera_backend.Users.{UserRow}
use numera_backend.Users.Identity.{
  IdentityState, WriteAnswer, written, refused, broken, BindOutcome, unlink_of, bound_elsewhere,
  is_bound_to, is_owner, update_address, bind_user, bind, owns, bind_all, already_bound,
}

-- Who owns an address is bound elsewhere, or to the address that is asked for.
owner_cases :
    (bound : Option Text) (address asked : Text)
    → is_owner bound address ≡ true
    → (bound_elsewhere bound asked ≡ true) ⊎ (is_bound_to bound asked ≡ true)
unfolding is_owner bound_elsewhere is_bound_to
owner_cases bound [] asked h = absurd (cc)
owner_cases none (c ∷ cs) asked h = absurd (cc)
owner_cases (some []) (c ∷ cs) asked h = absurd (cc ((text_eq_iff [] (c ∷ cs)).0 h))
owner_cases (some (b ∷ bs)) (c ∷ cs) asked h = elim (Bool-cases (text_eq (b ∷ bs) asked)) [
  | inl e ↦ inr e
  | inr e ↦ inl (ap (λ t. not t) e)
]

module _ {users : Store Text UserRow} where
  -- Another user's row is left alone.
  update_address-other :
      (id address other : Text) (answer : WriteAnswer) (o : Option UserRow)
      (s : IdentityState users)
      → id ≢ other
      → users.find (update_address id address answer o s).1.user_rows other
        ≡ users.find s.user_rows other
  unfolding update_address
  update_address-other id address other answer none s ne = refl
  update_address-other id address other written (some u) s ne =
      users.find-write_ne s.user_rows id other _ ne
  update_address-other id address other refused (some u) s ne = refl
  update_address-other id address other broken (some u) s ne = refl

  bind-other :
      (id address other : Text) (answer : WriteAnswer) (s : IdentityState users)
      → id ≢ other
      → users.find (bind id address answer s).1.user_rows other ≡ users.find s.user_rows other
  unfolding bind bind_user
  bind-other id address other answer s ne =
      let o = users.find s.user_rows id in
      guarded_elim
        (λ (x : BindOutcome (IdentityState users)).
          users.find x.1.user_rows other ≡ users.find s.user_rows other)
        (not (bound_elsewhere (unlink_of o) address)) already_bound _ s refl
        (λ free. elim (Bool-cases (is_bound_to (unlink_of o) address)) [
          | inl e ↦ rw e refl
          | inr e ↦ rw e (update_address-other id address other answer o s ne)
        ])

  -- An owner's own request changes nothing.
  bind-owned :
      (id address asked : Text) (answer : WriteAnswer) (s : IdentityState users)
      → owns id address s ≡ true
      → (bind id asked answer s).1 ≡ s
  unfolding bind bind_user owns guarded
  bind-owned id address asked answer s h =
      let o = users.find s.user_rows id in
      elim (owner_cases (unlink_of o) address asked h) [
        | inl e ↦ rw e refl
        | inr e ↦ elim (Bool-cases (bound_elsewhere (unlink_of o) asked)) [
          | inl b ↦ rw b refl
          | inr b ↦ rw (b, e) refl
        ]
      ]

  owns-bind_other :
      (id address other asked : Text) (answer : WriteAnswer) (s : IdentityState users)
      → owns id address s ≡ true
      → owns id address (bind other asked answer s).1 ≡ true
  unfolding owns
  owns-bind_other id address other asked answer s h = elim (text_cases other id) [
    | inl e ↦
        ap (λ i. owns id address (bind i asked answer s).1) e
        ∙ ap (λ t. owns id address t) (bind-owned id address asked answer s h)
        ∙ h
    | inr ne ↦ ap (λ o. is_owner (unlink_of o) address) (bind-other other asked id answer s ne) ∙ h
  ]

  -- Whoever owns an address still does after any requests to bind, by any users, whatever
  -- the database answers to each.
  pub owns-bind_all :
      (requests : List (Text × (Text × WriteAnswer))) (id address : Text) (s : IdentityState users)
      → owns id address s ≡ true
      → owns id address (bind_all requests s) ≡ true
  unfolding bind_all
  owns-bind_all [] id address s h = h
  owns-bind_all ((other, (asked, answer)) ∷ rest) id address s h =
      owns-bind_all rest id address (bind other asked answer s).1
        (owns-bind_other id address other asked answer s h)
