-- ===== src/Backend/Rows.antt =====
-- Facts on tables: rows, ids, and what an update keeps of the published rows.
use mathlib.Core.Path.{subst}
use ubd_probe.Prelude.{
  eq_sound, ◌&&◌, ℕ, ◌≡◌, refl, sym, ap, ◌∙◌, ◌≢◌, ◌⊎◌, inl, inr, Bool, true, false, Option, none,
  some, List, [], ◌∷◌, ◌++◌, All, filter, find?, ◌==◌, nat_eq, option_eq, arith, Bool-cases,
}
use ubd_probe.Backend.Branches.{drop_shadows, reject_row}
use ubd_probe.Backend.Model.{pending_review, published, status_eq, Offer, modify}

-- The row stands in the table.
abbrev pub In : Offer → List Offer → Type 0
In o [] = ⊥
In o (x ∷ rows) = (o ≡ x) ⊎ In o rows

-- A first row where a query states no order: any row that matches, if there is one.
pub record IsPick (pick : List Offer → Option Offer) : Type 0 where
  pub picked : (rows : List Offer) (o : Offer) → pick rows ≡ some o → In o rows
  pub missed : (rows : List Offer) → pick rows ≡ none → rows ≡ []

-- No two rows share an id.
abbrev pub HasIds : List Offer → Type 0
HasIds [] = Unit
HasIds (o ∷ rows) = All (λ p. o.id ≢ p.id) rows × HasIds rows

pub All-In : (P : Offer → Type 0) (rows : List Offer) (o : Offer) → All P rows → In o rows → P o
All-In P [] o h m = elim m [ ]
All-In P (x ∷ rows) o h (inl e) = subst P (sym e) h.0
All-In P (x ∷ rows) o h (inr m) = All-In P rows o h.1 m

pub find?-In :
    (p : Offer → Bool) (rows : List Offer) (o : Offer) → find? p rows ≡ some o → In o rows
unfolding find?
find?-In p [] o h = cc
find?-In p (x ∷ rows) o h = elim (Bool-cases (p x)) [
  | inl here ↦ inl (ground arith)
  | inr later ↦ inr (find?-In p rows o (ground arith))
]

pub filter-In :
    (p : Offer → Bool) (rows : List Offer) (o : Offer)
    → In o (filter p rows)
    → In o rows × (p o ≡ true)
unfolding filter
filter-In p [] o h = absurd h
filter-In p (x ∷ rows) o h = elim (Bool-cases (p x)) [
  | inl kept ↦
      let m : In o (x ∷ filter p rows) = ground arith in
      elim m [
        | inl e ↦ (inl e, rw e kept)
        | inr later ↦ let rest = filter-In p rows o later in (inr rest.0, rest.1)
      ]
  | inr gone ↦
      let m : In o (filter p rows) = ground arith in
      let rest = filter-In p rows o m in (inr rest.0, rest.1)
]

pub filter-nil :
    (p : Offer → Bool) (rows : List Offer) (o : Offer)
    → filter p rows ≡ []
    → In o rows
    → p o ≡ false
unfolding filter
filter-nil p [] o h m = elim m [ ]
filter-nil p (x ∷ rows) o h m = elim (Bool-cases (p x)) [
  | inl kept ↦ absurd (ground arith)
  | inr gone ↦ elim m [ inl e ↦ rw e gone | inr later ↦ filter-nil p rows o (ground arith) later ]
]

-- What an update of a published row may change: the time it was last seen, and its links.
abbrev pub Frozen : Offer → Offer → Type 0
Frozen o p = record p { last_seen_at = o.last_seen_at; links = o.links } ≡ o

-- Every row is still there, at its place and with its id, and the published rows are frozen; new
-- rows stand behind them.
abbrev pub Keeps : List Offer → List Offer → Type 0
Keeps [] after = Unit {0}
Keeps (o ∷ rows) [] = ⊥
Keeps (o ∷ rows) (p ∷ after) =
    (o.id ≡ p.id) × ((o.status ≢ published) ⊎ Frozen o p) × Keeps rows after

pub Keeps-refl : (rows : List Offer) → Keeps rows rows
Keeps-refl [] = tt
Keeps-refl (o ∷ rows) = (refl, inr refl, Keeps-refl rows)

Frozen-trans :
    (o p q : Offer)
    → (o.status ≢ published) ⊎ Frozen o p
    → (p.status ≢ published) ⊎ Frozen p q
    → (o.status ≢ published) ⊎ Frozen o q
Frozen-trans o p q (inl off) k = inl off
Frozen-trans o p q (inr h) (inl off) = inl (λ e. off (ap (λ (x : Offer). x.status) h ∙ e))
Frozen-trans o p q (inr h) (inr k) =
    inr (ap (λ (x : Offer). record x { last_seen_at = o.last_seen_at; links = o.links }) k ∙ h)

pub Keeps-trans : (a b c : List Offer) → Keeps a b → Keeps b c → Keeps a c
Keeps-trans [] b c h k = tt
Keeps-trans (o ∷ a) [] c h k = absurd h
Keeps-trans (o ∷ a) (p ∷ b) [] h k = absurd k
Keeps-trans (o ∷ a) (p ∷ b) (q ∷ c) h k =
    (h.0 ∙ k.0, Frozen-trans o p q h.1 k.1, Keeps-trans a b c h.2 k.2)

pub Keeps-append : (rows new : List Offer) → Keeps rows (rows ++ new)
Keeps-append [] new = tt
Keeps-append (o ∷ rows) new = (refl, inr refl, Keeps-append rows new)

-- No published row has this id.
abbrev pub NoneLive : ℕ → List Offer → Type 0
NoneLive id = All (λ o. (o.id ≢ id) ⊎ (o.status ≢ published))

off_live :
    {id : ℕ} (o : Offer) → (o.id ≢ id) ⊎ (o.status ≢ published) → o.id ≡ id → o.status ≢ published
off_live o (inl other) e live = other e
off_live o (inr off) e live = off live

pub modify-Keeps :
    (id : ℕ) (f : Offer → Offer) (rows : List Offer)
    → ((o : Offer) → (f o).id ≡ o.id)
    → NoneLive id rows
    → Keeps rows (modify id f rows)
unfolding modify
modify-Keeps id f [] same none_live = tt
modify-Keeps id f (o ∷ rows) same none_live =
    let rest = modify-Keeps id f rows same none_live.1 in
    elim (Bool-cases (o.id == id)) [
      | inl hit ↦ rw hit (sym (same o), inl (off_live o none_live.0 (eq_sound o.id id hit)), rest)
      | inr miss ↦ rw miss (refl, inr refl, rest)
    ]

pub modify-Keeps-Frozen :
    (id : ℕ) (f : Offer → Offer) (rows : List Offer)
    → ((o : Offer) → (f o).id ≡ o.id)
    → ((o : Offer) → Frozen o (f o))
    → Keeps rows (modify id f rows)
unfolding modify
modify-Keeps-Frozen id f [] same frozen = tt
modify-Keeps-Frozen id f (o ∷ rows) same frozen =
    let rest = modify-Keeps-Frozen id f rows same frozen in
    elim (Bool-cases (o.id == id)) [
      | inl hit ↦ rw hit (sym (same o), inr (frozen o), rest)
      | inr miss ↦ rw miss (refl, inr refl, rest)
    ]

pub drop_shadows-Keeps : (id : ℕ) (rows : List Offer) → Keeps rows (drop_shadows id rows)
unfolding drop_shadows
drop_shadows-Keeps id [] = tt
drop_shadows-Keeps id (o ∷ rows) =
    let rest = drop_shadows-Keeps id rows in
    elim (Bool-cases (o.supersedes_offer_id == some id && o.status == pending_review)) [
      | inl shadow ↦ rw shadow (refl, inl (λ live. ground arith), rest)
      | inr other ↦ rw other (refl, inr refl, rest)
    ]

-- Rejecting rows makes none of them live.
pub modify-NoneLive :
    (id j : ℕ) (rows : List Offer) → NoneLive id rows → NoneLive id (modify j reject_row rows)
unfolding modify
modify-NoneLive id j [] h = tt
modify-NoneLive id j (o ∷ rows) h =
    let rest = modify-NoneLive id j rows h.1 in
    elim (Bool-cases (o.id == j)) [
      | inl hit ↦ rw hit (inr (λ live. absurd (cc)), rest)
      | inr miss ↦ rw miss (h.0, rest)
    ]

-- With unique ids, a row that is not published tells of its id.
pub NoneLive-In :
    (rows : List Offer) (o : Offer)
    → HasIds rows
    → In o rows
    → o.status ≢ published
    → NoneLive o.id rows
NoneLive-In [] o ids m not_live = elim m [ ]
NoneLive-In (x ∷ rows) o ids (inl e) not_live = (
  inr (λ live. not_live (ap (λ (y : Offer). y.status) e ∙ live)),
  others x.id rows ids.0 (ap (λ (y : Offer). y.id) e),
)
  where
    others :
        (id : ℕ) (rest : List Offer) → All (λ p. id ≢ p.id) rest → o.id ≡ id → NoneLive o.id rest
    others id [] h e = tt
    others id (y ∷ rest) h e = (inl (λ same. h.0 (sym (same ∙ e))), others id rest h.1 e)
NoneLive-In (x ∷ rows) o ids (inr m) not_live = (
  inl (λ same. All-In (λ p. x.id ≢ p.id) rows o ids.0 m same),
  NoneLive-In rows o ids.1 m not_live,
)
