-- ===== src/Section/Parser/Methods/Owned.antt =====
-- b1/ts_section_parser.c: what every operation keeps: each element stands in one place, the counts
-- are those of the lists, and each section that is counted as unique is queued once.
use recskapa.Base.{ℕ, suc, ◌+◌, ◌≤◌, ◌≡◌, refl, ap, ◌∙◌, arith}
use recskapa.Base.{
  leb, ◌==◌, if◌then◌else◌, length, length-append, List, [], ◌∷◌, ◌++◌, map, Bool-cases, inl, inr,
}
use recskapa.Base.{Option, some, none, Bool, true}
use recskapa.Section.Parser.{Elem, SectionList, Parser}
use recskapa.Section.Parser.{
  is_empty, find_elem, remove_elem, unref_list, unref, put_ts_section_list_tail,
}

-- 1 for the element with an address, 0 for others.
abbrev pub own : ℕ → Elem → ℕ
own id e = if e.id == id then 1 else 0

-- How often an address occurs in a list.
abbrev pub tally : ℕ → List Elem → ℕ
tally id [] = 0
tally id (e ∷ es) = own id e + tally id es

abbrev pub tally_work : ℕ → Option Elem → ℕ
tally_work id none = 0
tally_work id (some w) = own id w

-- How often an address occurs: as `work`, in the lists, or among those not given out yet.
abbrev pub places : ℕ → Parser → ℕ
places id prv =
    tally_work id prv.work
    + tally id prv.pool.elems
    + tally id prv.buff.elems
    + (if leb prv.next_id id then 1 else 0)

-- Every address has at most one place.
abbrev pub IsOwned : Parser → Type 0
IsOwned prv = (id : ℕ) → places id prv ≤ 1

abbrev pub IsCounted : Parser → Type 0
IsCounted prv = (prv.pool.count ≡ length prv.pool.elems) × (prv.buff.count ≡ length prv.buff.elems)

-- What `put` keeps from one state to the next.
pub record Keeps (prv prv' : Parser) : Type 0 where
  pub same_places : (id : ℕ) → places id prv' ≡ places id prv
  pub counted : IsCounted prv → IsCounted prv'
  pub queued : prv'.stat.unique + length prv.buff.elems ≡ prv.stat.unique + length prv'.buff.elems
  pub classified :
      prv.stat.total + prv'.stat.unique + prv'.stat.error
      ≤ prv'.stat.total + prv.stat.unique + prv.stat.error

pub Keeps-refl : (prv : Parser) → Keeps prv prv
Keeps-refl prv = record {
  same_places = λ id. refl;
  counted = λ h. h;
  queued = refl;
  classified = omega arith;
}

pub Keeps-trans : (a b c : Parser) → Keeps a b → Keeps b c → Keeps a c
Keeps-trans a b c h k = record {
  same_places = λ id. k.same_places id ∙ h.same_places id;
  counted = λ x. k.counted (h.counted x);
  queued = omega (arith, h.queued, k.queued);
  classified = omega (arith, h.classified, k.classified);
}

tally-append : (id : ℕ) (xs ys : List Elem) → tally id (xs ++ ys) ≡ tally id xs + tally id ys
tally-append id [] ys = omega arith
tally-append id (x ∷ xs) ys = omega (arith, tally-append id xs ys)

tally-unref : (id k : ℕ) (xs : List Elem) → tally id (map (unref k) xs) ≡ tally id xs
tally-unref id k [] = refl
tally-unref id k (x ∷ xs) = ground (arith, tally-unref id k xs)

length-unref : (k : ℕ) (xs : List Elem) → length (map (unref k) xs) ≡ length xs
length-unref k [] = refl
length-unref k (x ∷ xs) = ap suc (length-unref k xs)

pub tally-unref_list :
    (id : ℕ) (last : Option ℕ) (list : SectionList)
    → tally id (unref_list last list).elems ≡ tally id list.elems
unfolding unref_list
tally-unref_list id none list = refl
tally-unref_list id (some k) list = tally-unref id k list.elems

pub length-unref_list :
    (last : Option ℕ) (list : SectionList)
    → (length (unref_list last list).elems ≡ length list.elems)
      × ((unref_list last list).count ≡ list.count)
unfolding unref_list
length-unref_list none list = (refl, refl)
length-unref_list (some k) list = (length-unref k list.elems, refl)

-- What is taken out of a list is one element of the address.
pub tally-remove :
    (id : ℕ) (p : Elem → Bool) (r : Elem) (es : List Elem)
    → find_elem p es ≡ some r
    → (own id r + tally id (remove_elem r.id es) ≡ tally id es)
      × (suc (length (remove_elem r.id es)) ≡ length es)
unfolding find_elem remove_elem
tally-remove id p r [] h = absurd (ground arith)
tally-remove id p r (e ∷ es) h = elim (Bool-cases (p e)) [
  | inl here ↦ ground (arith, h, here)
  | inr behind ↦ elim (Bool-cases (e.id == r.id)) [
    | inl same ↦ ground arith
    | inr other ↦ ground (arith, tally-remove id p r es (ground (arith, h, behind)))
  ]
]

pub empty_length {ℓ} : {A : Type ℓ} (xs : List A) → is_empty xs ≡ true → length xs ≡ 0
unfolding is_empty
empty_length [] h = refl
empty_length (x ∷ xs) h = absurd (ground arith)

pub put_tail_facts :
    (list : SectionList) (e : Elem)
    → ((put_ts_section_list_tail list e).elems ≡ list.elems ++ (e ∷ []))
      × (list.count ≡ length list.elems
          → (put_ts_section_list_tail list e).count ≡ length list.elems + 1)
unfolding put_ts_section_list_tail
put_tail_facts list e = (refl, λ h. ground (arith, empty_length list.elems))

pub tally-put :
    (id : ℕ) (list : SectionList) (e : Elem)
    → tally id (put_ts_section_list_tail list e).elems ≡ tally id list.elems + own id e
tally-put id list e =
    rw ((put_tail_facts list e).0) (omega (arith, tally-append id list.elems (e ∷ [])))

pub length-put :
    (list : SectionList) (e : Elem)
    → length (put_ts_section_list_tail list e).elems ≡ length list.elems + 1
length-put list e =
    rw ((put_tail_facts list e).0) (omega (arith, length-append list.elems (e ∷ [])))

-- `w` in hand, written as the work that the parser holds.
abbrev pub holding : Parser → Elem → Parser
holding prv w = record prv { work = some w }
