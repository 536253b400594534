-- ===== src/Section/Parser/Methods/Reach.antt =====
-- b1/ts_section_parser.c: the states that calls of the methods lead to.
use mathlib.Core.Path.{subst}
use recskapa.Base.{ℕ, ◌+◌, ◌≤◌, ◌≡◌, refl, arith}
use recskapa.Base.{length, List, [], ◌∷◌}
use recskapa.Base.{Option, some, none, Bool, true}
use recskapa.Packet.Header.{TsHeader}
use recskapa.Section.Parser.{Code, Elem, Parser, get_ts_section_list_head}
use recskapa.Section.Parser.Methods.{
  create_ts_section_parser, put, get, ret, ret_from, reset, Handed, teardown,
}
use recskapa.Section.Parser.Methods.Owned.{
  tally, IsOwned, IsCounted, tally-put, length-put, put_tail_facts, empty_length,
}
use recskapa.Section.Parser.Methods.Kept.{put-Keeps}

-- The states that a parser goes through, from its creation on.
pub data Reachable (calloc : ℕ → Bool) : Parser → Type 0 where
  created : Reachable calloc create_ts_section_parser
  by_put :
      (prv prv' : Parser) (hdr : TsHeader) (bytes : List ℕ) (c : Code)
      → put calloc (some prv) (some hdr) (some bytes) ≡ some (c, some prv')
      → Reachable calloc prv
      → Reachable calloc prv'
  by_get :
      (prv prv' : Parser)
      → (get (some prv) true).2 ≡ some prv'
      → Reachable calloc prv
      → Reachable calloc prv'
  by_ret :
      (prv prv' : Parser) (sect : Handed)
      → (ret (some prv) (some sect)).1 ≡ some prv'
      → Reachable calloc prv
      → Reachable calloc prv'
  by_reset :
      (prv prv' : Parser)
      → (reset (some prv)).1 ≡ some prv'
      → Reachable calloc prv
      → Reachable calloc prv'

abbrev pub IsSound : Parser → Type 0
IsSound prv = IsOwned prv × (IsCounted prv × (prv.stat.unique + prv.stat.error ≤ prv.stat.total))

abbrev Sound : Option Parser → Type 0
Sound none = Unit {0}
Sound (some prv) = IsSound prv

created-IsSound : IsSound create_ts_section_parser
unfolding create_ts_section_parser
created-IsSound = (λ id. ground arith, ((refl, refl), omega arith))

put-IsSound :
    (calloc : ℕ → Bool) (prv prv' : Parser) (hdr : TsHeader) (bytes : List ℕ) (c : Code)
    → put calloc (some prv) (some hdr) (some bytes) ≡ some (c, some prv')
    → IsSound prv
    → IsSound prv'
put-IsSound calloc prv prv' hdr bytes c e (owned, (counted, fits)) =
    let (c1, prv1, e1, kept, counters) = put-Keeps calloc prv hdr bytes in
    let same : prv1 ≡ prv' = ground (arith, e, e1) in
    subst (λ x. IsSound x) same
      (
        λ id. omega (arith, owned id, kept.same_places id),
        (kept.counted counted, omega (arith, fits, kept.classified)),
      )

head-Sound :
    (prv : Parser) (count : ℕ) (elems : List Elem)
    → let prv' : Parser = record prv { buff = record { elems = elems; count = count } } in
      IsSound prv' → Sound (get (some prv') true).2
unfolding get get_ts_section_list_head
head-Sound prv count [] sound = sound
head-Sound prv count (e ∷ rest) (owned, (counted, fits)) = (
  λ id. omega (arith, owned id, tally-put id prv.pool e),
  (
    ground
        (arith, counted, length-put prv.pool e, (put_tail_facts prv.pool e).1, empty_length rest),
    fits,
  ),
)

get-Sound : (prv : Parser) → IsSound prv → Sound (get (some prv) true).2
get-Sound prv sound = head-Sound prv prv.buff.count prv.buff.elems sound

ret_from-tally :
    (sect : Handed) (id : ℕ) (es : List Elem)
    → (tally id (ret_from sect es).0 ≡ tally id es) × (length (ret_from sect es).0 ≡ length es)
unfolding ret_from
ret_from-tally sect id [] = (refl, refl)
ret_from-tally sect id (e ∷ es) = ground (arith, ret_from-tally sect id es)

reset-Sound : (prv : Parser) → IsSound prv → Sound (reset (some prv)).1
unfolding reset teardown create_ts_section_parser
reset-Sound prv (owned, sound) = (λ id. ground (arith, owned id), ((refl, refl), omega arith))

ret-Sound : (prv : Parser) (sect : Handed) → IsSound prv → Sound (ret (some prv) (some sect)).1
unfolding ret
ret-Sound prv sect (owned, (counted, fits)) = (
  λ id. ground (arith, owned id, ret_from-tally sect id prv.pool.elems),
  (ground (arith, counted, ret_from-tally sect 0 prv.pool.elems), fits),
)

-- In every state that calls of the methods lead to, each element has at most one place, among the
-- work, the two lists and the addresses not given out; the counts of both lists are their lengths;
-- and at most as many sections are counted as unique or in error as in total.
pub Reachable-IsSound : (calloc : ℕ → Bool) (prv : Parser) → Reachable calloc prv → IsSound prv
Reachable-IsSound calloc prv created = created-IsSound
Reachable-IsSound calloc _ (by_put prv prv' hdr bytes c e h) =
    put-IsSound calloc prv prv' hdr bytes c e (Reachable-IsSound calloc prv h)
Reachable-IsSound calloc _ (by_get prv prv' e h) =
    subst (λ x. Sound x) e (get-Sound prv (Reachable-IsSound calloc prv h))
Reachable-IsSound calloc _ (by_ret prv prv' sect e h) =
    subst (λ x. Sound x) e (ret-Sound prv sect (Reachable-IsSound calloc prv h))
Reachable-IsSound calloc _ (by_reset prv prv' e h) =
    subst (λ x. Sound x) e (reset-Sound prv (Reachable-IsSound calloc prv h))
