-- ===== src/Decoder/Flow/Ends.antt =====
-- b1/arib_std_b1.c: the loops over the packets come to an end.
use recskapa.Base.{
  if◌then◌else◌, ℕ, ◌≡◌, refl, arith, List, Option, some, none, Bool, true, false, ◌==◌,
  Option-cases, inl, inr,
}
use recskapa.Decoder.{Code, Decoder}
use recskapa.Decoder.{PidType, pmt, ecm, Target, null, program, decryptor}
use recskapa.Decoder.Decryptor.{find_dec}
use recskapa.Decoder.Cat.{proc_cat}
use recskapa.Decoder.Pat.{proc_pat}
use recskapa.Decoder.Pmt.{proc_pmt, store_program}
use recskapa.Decoder.Programs.{program_at}
use recskapa.Decoder.Platform.{
  Platform, System, Run, done, wild, out_of_fuel, with_result, feed, Fed, failed, waits, ready,
}
use recskapa.Decoder.Tables.{
  leave, Handled, finish, from_option, open_parser, ecm_packet, pmt_packet, cat_packet, pat_packet,
  table_packet,
}
use recskapa.Packet.Header.{TsHeader}
use recskapa.Section.Parser.{Parser}
use recskapa.Section.Parser.Methods.{put}
use recskapa.Section.Parser.Methods.Total.{put-runs}

-- If the code comes to an end, its result is of a kind; and it does not run out of fuel.
abbrev pub Yields : {A : Type 0} → (A → Type 0) → Run A → Type 0
Yields P (done a) = P a
Yields P wild = Unit {0}
Yields P out_of_fuel = ⊥

abbrev pub Ends : {A : Type 0} → Run A → Type 0
Ends r = Yields (λ a. Unit {0}) r

pub with_result-Yields :
    {A B : Type 0} (P : A → Type 0) (Q : B → Type 0) (r : Run A) (f : A → Run B)
    → Yields P r
    → ((a : A) → P a → Yields Q (f a))
    → Yields Q (with_result r f)
with_result-Yields P Q (done a) f h k = k a h
with_result-Yields P Q wild f h k = tt
with_result-Yields P Q out_of_fuel f h k = h

pub with_result-Ends :
    {A B : Type 0} (r : Run A) (f : A → Run B)
    → Ends r
    → ((a : A) → Ends (f a))
    → Ends (with_result r f)
with_result-Ends r f h k = with_result-Yields (λ a. Unit) (λ b. Unit) r f h (λ a _. k a)

pub feed-Ends :
    (calloc : ℕ → Bool) (parser : Parser) (hdr : TsHeader) (payload : List ℕ)
    → Ends (feed calloc parser hdr payload)
unfolding feed
feed-Ends calloc parser hdr payload =
    elim (put calloc (some parser) (some hdr) (some payload))
        as (λ o.
          put calloc (some parser) (some hdr) (some payload) ≡ o
          → Ends (feed calloc parser hdr payload)) [
            | none ↦ λ e. absurd (put-runs calloc (some parser) (some hdr) (some payload) e)
            | some (c, none) ↦ λ e. rw (feed, e) tt
            | some (c, some parser') ↦ λ e. rw (feed, e) tt
          ]
      refl

module _ {W : Type 0} (on : Platform W) where
  pub from_option-Ends :
      (sys : System W) (o : Option (Code × Decoder)) → Ends (from_option on sys o)
  from_option-Ends sys none = tt
  from_option-Ends sys (some (r, prv)) = tt

  pub feed_then-Ends :
      {B : Type 0} (parser : Parser) (hdr : TsHeader) (payload : List ℕ) (f : Fed × Parser → Run B)
      → ((p : Parser) → Ends (f (failed, p)))
      → ((p : Parser) → Ends (f (waits, p)))
      → ((p : Parser) → Ends (f (ready, p)))
      → Ends (with_result (feed on.calloc parser hdr payload) f)
  feed_then-Ends parser hdr payload f h1 h2 h3 =
      with_result-Ends (feed on.calloc parser hdr payload) f
        (feed-Ends on.calloc parser hdr payload) each
    where
      each : (a : Fed × Parser) → Ends (f a)
      each (failed, p) = h1 p
      each (waits, p) = h2 p
      each (ready, p) = h3 p

  pub tried-Ends :
      {B : Type 0} (sys : System W) (o : Option (Code × Decoder)) (f : Code × System W → Run B)
      → ((a : Code × System W) → Ends (f a))
      → Ends (with_result (from_option on sys o) f)
  tried-Ends sys o f k = with_result-Ends (from_option on sys o) f (from_option-Ends sys o) k

  ecm_packet-Ends :
      (r : Code) (sys : System W) (id : ℕ) (hdr : TsHeader) (payload : List ℕ)
      → Ends (ecm_packet on r sys id hdr payload)
  unfolding ecm_packet
  ecm_packet-Ends r sys id hdr payload = elim (Option-cases (find_dec id sys.prv.decrypt)) [
    | inl e ↦ rw (ecm_packet, e) tt
    | inr (d, e) ↦
        rw (ecm_packet, e) (feed_then-Ends d.ecm hdr payload _ (λ p. tt) (λ p. tt) (λ p. tt))
  ]

  pmt_packet-Ends :
      (r : Code) (sys : System W) (i : ℕ) (hdr : TsHeader) (payload : List ℕ)
      → Ends (pmt_packet on r sys i hdr payload)
  unfolding pmt_packet
  pmt_packet-Ends r sys i hdr payload = elim (Option-cases (program_at sys.prv.program i)) [
    | inl e ↦ rw (pmt_packet, e) tt
    | inr (pgrm, e) ↦
        rw (pmt_packet, e)
          (feed_then-Ends pgrm.pmt hdr payload _ (λ p. tt) (λ p. tt)
            (λ p.
              tried-Ends {B = Handled on}
                (record sys { prv = store_program sys.prv i (record pgrm { pmt = p }) })
                (proc_pmt on.memory on.stale (store_program sys.prv i (record pgrm { pmt = p })) i)
                (λ (r', sys'). finish on r' sys') (λ a. tt)))
  ]

  cat_packet-Ends :
      (r : Code) (sys : System W) (hdr : TsHeader) (payload : List ℕ)
      → Ends (cat_packet on r sys hdr payload)
  unfolding cat_packet
  cat_packet-Ends r sys hdr payload = elim (Option-cases (open_parser on sys.prv sys.prv.cat).0) [
    | inl e ↦ rw (cat_packet, e) tt
    | inr (old, e) ↦
        rw (cat_packet, e)
          (feed_then-Ends old hdr payload _ (λ p. tt) (λ p. tt)
            (λ p.
              tried-Ends {B = Handled on}
                (record sys {
                  prv = record (open_parser on sys.prv sys.prv.cat).1 { cat = some p };
                })
                (proc_cat (record (open_parser on sys.prv sys.prv.cat).1 { cat = some p }))
                (λ (r', sys'). finish on r' sys') (λ a. tt)))
  ]

  pat_packet-Ends :
      (flushing : Bool) (r : Code) (sys : System W) (hdr : TsHeader) (payload : List ℕ)
      → Ends (pat_packet on flushing r sys hdr payload)
  unfolding pat_packet
  pat_packet-Ends flushing r sys hdr payload =
      elim (Option-cases (open_parser on sys.prv sys.prv.pat).0) [
        | inl e ↦ rw (pat_packet, e) tt
        | inr (old, e) ↦
            rw (pat_packet, e)
              (feed_then-Ends old hdr payload _ (λ p. tt) (λ p. tt)
                (λ p.
                  tried-Ends {B = Handled on}
                    (record sys {
                      prv = record (open_parser on sys.prv sys.prv.pat).1 { pat = some p };
                    })
                    (proc_pat on.memory
                      (record (open_parser on sys.prv sys.prv.pat).1 { pat = some p }))
                    (λ (r', sys'). if flushing then finish on r' sys' else done (r', leave, sys'))
                    (λ a. ground arith)))
      ]

  pub table_packet-Ends :
      (flushing : Bool) (r : Code) (sys : System W) (hdr : TsHeader) (payload : List ℕ)
      → Ends (table_packet on flushing r sys hdr payload)
  unfolding table_packet
  table_packet-Ends flushing r sys hdr payload =
      let entry = sys.prv.map hdr.pid in
      chosen entry.type entry.target (hdr.pid == 0x0001) (hdr.pid == 0x0000) refl refl refl refl
    where
      chosen :
          (type : PidType) (target : Target) (is_cat is_pat : Bool)
          → (sys.prv.map hdr.pid).type ≡ type
          → (sys.prv.map hdr.pid).target ≡ target
          → (hdr.pid == 0x0001) ≡ is_cat
          → (hdr.pid == 0x0000) ≡ is_pat
          → Ends (table_packet on flushing r sys hdr payload)
      chosen ecm null is_cat is_pat e f g h = rw (table_packet, e, f) tt
      chosen ecm (program i) is_cat is_pat e f g h = rw (table_packet, e, f) tt
      chosen ecm (decryptor id) is_cat is_pat e f g h =
          rw (table_packet, e, f) (ecm_packet-Ends r sys id hdr payload)
      chosen pmt null is_cat is_pat e f g h = rw (table_packet, e, f) tt
      chosen pmt (program i) is_cat is_pat e f g h =
          rw (table_packet, e, f) (pmt_packet-Ends r sys i hdr payload)
      chosen pmt (decryptor id) is_cat is_pat e f g h = rw (table_packet, e, f) tt
      chosen type target true is_pat e f g h =
          ground (arith, e, g, cat_packet-Ends r sys hdr payload)
      chosen type target false true e f g h =
          ground (arith, e, g, h, pat_packet-Ends flushing r sys hdr payload)
      chosen type target false false e f g h = ground (arith, e, g, h)
