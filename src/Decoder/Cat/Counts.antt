-- ===== src/Decoder/Cat/Counts.antt =====
-- b1/arib_std_b1.c: the conditional access table keeps the counts of the decryptors.
use mathlib.Core.Path.{subst}
use recskapa.Base.{ℕ, ◌-◌, ◌<◌, ◌≡◌, ◌≢◌, refl, sym, ap, ◌∙◌, arith, ◌==◌, not, length, take, drop}
use recskapa.Base.{
  true, false, ◌&&◌, Bool-cases, Option-cases, some-injective, inl, inr, List, Option, some, none,
}
use recskapa.Decoder.{Code, ok, warn_ts_section_id_missmatch, cat_parse_failure}
use recskapa.Decoder.{emm, cat, Target, null, program, decryptor, PidMap, Decoder}
use recskapa.Decoder.Cat.{set_emm, set_cat, use_cat, proc_cat}
use recskapa.Decoder.Decryptor.{is_other, find_dec, drop_target, drop_ref, remove_decryptor}
use recskapa.Decoder.Decryptor.Refs.{pid_max}
use recskapa.Decoder.Decryptor.Counted.{Counted, bump, replace, replace-Counted}
use recskapa.Decoder.Decryptor.Replaced.{drop_replaced}
use recskapa.Decoder.Decryptor.Streams.{stream_target, drop_target-null, drop_target-decryptor}
use recskapa.Decoder.Decryptor.Set.{left_entry}
use recskapa.Decoder.Descriptor.{find_ca_descriptor_pid, find_ca_descriptor_pid_lt}
use recskapa.Decoder.Ecm.{ecm_bytes}
use recskapa.Section.Assembly.{Section}
use recskapa.Section.Parser.Methods.{Handed, get, ret}

-- The entry leaves what it refers to, and is replaced by one for EMMs.
abbrev for_emm : PidMap → PidMap
for_emm entry = record entry { ref = 1; type = emm; target = null }

left_entry-Counted :
    (held : ℕ → ℕ) (prv : Decoder) (pid : ℕ)
    → pid < pid_max
    → Counted held prv
    → (prv' : Decoder) × (left_entry prv pid ≡ some prv')
      × Counted held (replace prv' pid (for_emm (prv'.map pid)))
left_entry-Counted held prv pid lt c =
    let entry : PidMap = prv.map pid in
    elim (Bool-cases (is_other entry.type)) [
      | inr alien ↦ (
        prv,
        rw alien refl,
        replace-Counted held held prv pid (for_emm entry) lt (λ id. rw alien refl) refl c,
      )
      | inl stream ↦
          elim (stream_target prv.decrypt pid entry.type entry.target stream (c.points pid lt)) [
            | inl empty ↦ (
              prv,
              rw stream (drop_target-null prv entry.target empty),
              replace-Counted held held prv pid (for_emm entry) lt (λ id. rw (stream, empty) refl)
                  refl c,
            )
            | inr (old, d, at, was) ↦
                let gone : Counted (bump old held) (replace prv pid (for_emm entry)) =
                  replace-Counted held (bump old held) prv pid (for_emm entry) lt
                    (λ j. ground (arith, at, stream)) refl c in
                let (after, dropped, kept, counted) =
                  drop_replaced held prv pid old d (for_emm entry) (ground (arith, stream)) refl was
                    gone in
                (
                  after,
                  rw stream (drop_target-decryptor prv after entry.target old at dropped),
                  subst (λ e. Counted held (replace after pid (for_emm e))) (sym kept) counted,
                )
          ]
    ]

drop_ref-is_other :
    (prv prv' : Decoder) (id j : ℕ)
    → drop_ref prv id ≡ some prv'
    → is_other (prv'.map j).type ≡ is_other (prv.map j).type
unfolding drop_ref remove_decryptor
drop_ref-is_other prv prv' id j e = elim (Option-cases (find_dec id prv.decrypt)) [
  | inl nowhere ↦ absurd (ground (arith, e, nowhere))
  | inr (d, found) ↦ elim (Bool-cases (j == d.ecm_pid)) [
    | inl here ↦
        let at : j ≡ d.ecm_pid = ground arith in
        ground (arith, e, found, here, ap (λ k. is_other (prv.map k).type) at)
    | inr elsewhere ↦ ground (arith, e, found, elsewhere)
  ]
]

pub drop_target-is_other :
    (prv prv' : Decoder) (target : Target) (j : ℕ)
    → drop_target prv target ≡ some prv'
    → is_other (prv'.map j).type ≡ is_other (prv.map j).type
unfolding drop_target
drop_target-is_other prv prv' null j e =
    ap (λ (x : Decoder). is_other (x.map j).type) (sym (some-injective e))
drop_target-is_other prv prv' (program i) j e = absurd (ground (arith, e))
drop_target-is_other prv prv' (decryptor id) j e = drop_ref-is_other prv prv' id j e

left_entry-is_other :
    (prv prv' : Decoder) (pid j : ℕ)
    → left_entry prv pid ≡ some prv'
    → is_other (prv'.map j).type ≡ is_other (prv.map j).type
left_entry-is_other prv prv' pid j e = elim (Bool-cases (is_other (prv.map pid).type)) [
  | inr alien ↦ ground (arith, e, alien)
  | inl stream ↦ drop_target-is_other prv prv' (prv.map pid).target j (ground (arith, e, stream))
]

set_emm-Counted :
    (held : ℕ → ℕ) (prv : Decoder) (pid : ℕ)
    → pid < pid_max
    → is_other (prv.map 0x0001).type ≡ false
    → Counted held prv
    → (prv' : Decoder) × (set_emm prv pid ≡ some prv')
      × (is_other (prv'.map 0x0001).type ≡ false)
      × Counted held prv'
unfolding set_emm
set_emm-Counted held prv pid lt apart c =
    let (prv1, left, c1) = left_entry-Counted held prv pid lt c in
    let kept = left_entry-is_other prv prv1 pid 0x0001 left in
    (
      record (replace prv1 pid (for_emm (prv1.map pid))) { emm_pid = pid },
      rw (set_emm, left) refl,
      elim (Bool-cases (0x0001 == pid)) [
        | inl here ↦ rw here refl
        | inr elsewhere ↦ rw elsewhere (kept ∙ apart)
      ],
      record { exact = c1.exact; points = c1.points; fresh = c1.fresh; alive = c1.alive },
    )

set_cat-Counted :
    (held : ℕ → ℕ) (prv : Decoder)
    → 0x0001 < pid_max
    → is_other (prv.map 0x0001).type ≡ false
    → Counted held prv
    → Counted held (set_cat prv)
unfolding set_cat
set_cat-Counted held prv lt apart c =
    replace-Counted held held prv 0x0001
      (record (prv.map 0x0001) { ref = 1; type = cat; target = null }) lt (λ id. rw apart refl) refl
      c

use_cat-Counted :
    (held : ℕ → ℕ) (prv : Decoder) (sect : Section) (bytes : List ℕ)
    → ecm_bytes sect ≡ some bytes
    → is_other (prv.map 0x0001).type ≡ false
    → Counted held prv
    → (prv' : Decoder) × (use_cat prv sect ≡ some prv') × Counted held prv'
unfolding use_cat pid_max
use_cat-Counted held prv sect bytes here apart c =
    let pid = find_ca_descriptor_pid bytes prv.ca_system_id in
    let small : pid < pid_max = find_ca_descriptor_pid_lt bytes prv.ca_system_id in
    let one : 0x0001 < pid_max = omega arith in
    elim (Bool-cases (not (pid == 0x0000) && not (pid == 0x1fff))) [
      | inr no_emm ↦
          (set_cat prv, rw (use_cat, here, no_emm) refl, set_cat-Counted held prv one apart c)
      | inl has_emm ↦
          let (prv1, set, apart1, c1) = set_emm-Counted held prv pid small apart c in
          (
            set_cat prv1,
            rw (use_cat, here, has_emm, set) refl,
            set_cat-Counted held prv1 one apart1 c1,
          )
    ]

-- A section that is handed out has its data.
abbrev pub HasData : Option Handed → Type 0
HasData none = Unit {0}
HasData (some handed) = handed.sect.body ≢ none

-- Where the entry of the table itself is not one of a stream, a section that is handed out has its
-- data and the counts are right, the handling of the table ends, and leaves them right.
pub proc_cat-Counted :
    (held : ℕ → ℕ) (prv : Decoder)
    → is_other (prv.map 0x0001).type ≡ false
    → HasData (get prv.cat true).1
    → Counted held prv
    → (code : Code) × (prv' : Decoder) × (proc_cat prv ≡ some (code, prv')) × Counted held prv'
unfolding proc_cat
proc_cat-Counted held prv apart whole c =
    let (n, sect, parser) = get prv.cat true in
    let prv1 : Decoder = record prv { cat = parser } in
    let c1 : Counted held prv1 = record {
      exact = c.exact;
      points = c.points;
      fresh = c.fresh;
      alive = c.alive;
    } in
    elim (Option-cases sect) [
      | inl nothing ↦ (cat_parse_failure, prv1, rw (proc_cat, nothing) refl, c1)
      | inr (handed, found) ↦
          let given = (ret parser (some handed)).1 in
          elim (Bool-cases (handed.sect.hdr.table_id == 0x01)) [
            | inr wrong ↦ (
              warn_ts_section_id_missmatch,
              record prv1 { cat = given },
              rw (proc_cat, found, wrong) refl,
              record { exact = c.exact; points = c.points; fresh = c.fresh; alive = c.alive },
            )
            | inl right ↦
                let filled : handed.sect.body ≢ none = subst (λ x. HasData x) found whole in
                elim (Option-cases handed.sect.body) [
                  | inl empty ↦ absurd (filled empty)
                  | inr (offset, at) ↦
                      let bytes = drop offset handed.sect.raw in
                      let (prv2, used, c2) =
                        use_cat-Counted held prv1 handed.sect (take (length bytes - 4) bytes)
                          (rw at refl) apart c1 in
                      (
                        ok,
                        record prv2 { cat = given },
                        rw (proc_cat, found, right, used) refl,
                        record {
                          exact = c2.exact;
                          points = c2.points;
                          fresh = c2.fresh;
                          alive = c2.alive;
                        },
                      )
                ]
          ]
    ]
