-- ===== src/Store.antt =====
-- The database client as the services use it (PrismaService, prisma/schema.prisma): a table of rows
-- under a unique key. The client and the server behind it are not code of the repository, so a
-- table is an interface: what `findUnique` reads after a row was written, and after `updateMany`.
pub mod Expiring
pub mod Functions
use numera_backend.Prelude.{◌≡◌, ◌≢◌, sym, ap, ◌∙◌, Bool, Option, none, some, if◌then◌else◌}

abbrev pub map_option : {A B : Type 0} → (A → B) → Option A → Option B
map_option f none = none
map_option f (some a) = some (f a)

pub record Store (K R : Type 0) : Type 1 where
  pub Table : Type 0
  pub find : Table → K → Option R
  pub write : Table → K → R → Table
  pub update_many : Table → (K → R → Bool) → (R → R) → Table
  pub find-write_self : (t : Table) (k : K) (r : R) → find (write t k r) k ≡ some r
  pub find-write_ne : (t : Table) (k j : K) (r : R) → k ≢ j → find (write t k r) j ≡ find t j
  pub find-update_many :
      (t : Table) (p : K → R → Bool) (u : R → R) (j : K)
      → find (update_many t p u) j ≡ map_option (λ r. if p j r then u r else r) (find t j)

module _ {K R : Type 0} (s : Store K R) where
  -- `upsert({ where, create, update })`.
  unfoldable pub upsert : s.Table → K → R → (R → R) → s.Table
  upsert t k new change = s.write t k (elim (s.find t k) [ none ↦ new | some r ↦ change r ])

  -- `update({ where, data })`, which throws on a missing row.
  unfoldable pub update : s.Table → K → (R → R) → Option s.Table
  update t k change = elim (s.find t k) [ none ↦ none | some r ↦ some (s.write t k (change r)) ]

  -- A row found where one was written is that row.
  pub find-write_eq :
      (t : s.Table) (k j : K) (r x : R) → k ≡ j → s.find (s.write t k r) j ≡ some x → r ≡ x
  find-write_eq t k j r x e found =
      some_inj (sym (s.find-write_self t k r) ∙ ap (s.find (s.write t k r)) e ∙ found)
    where
      some_inj : {a b : R} → ◌≡◌ {A = Option R} (some a) (some b) → a ≡ b
      some_inj h = cc
