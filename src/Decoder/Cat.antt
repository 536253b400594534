-- ===== src/Decoder/Cat.antt =====
-- b1/arib_std_b1.c: the conditional access table. A result is `none` where the source follows a
-- pointer to something else than a decryptor that is in the list, counts references to one below 0,
-- or reads through a pointer that is NULL.
pub mod Counts
mod Tests
use recskapa.Base.{ℕ, ◌==◌, if◌then◌else◌, not, Bool, true, false, ◌&&◌, Option, some, none}
use recskapa.Decoder.{Code, ok, warn_ts_section_id_missmatch, cat_parse_failure}
use recskapa.Decoder.{PidType, emm, cat, null, PidMap, Decoder, set_map}
use recskapa.Decoder.Decryptor.{is_other, drop_target}
use recskapa.Decoder.Descriptor.{find_ca_descriptor_pid}
use recskapa.Decoder.Ecm.{ecm_bytes}
use recskapa.Section.Assembly.{Section}
use recskapa.Section.Parser.{Parser}
use recskapa.Section.Parser.Methods.{get, ret}

-- The reference of the entry is dropped where it has one, and the entry becomes that of the EMMs.
unfoldable pub set_emm : Decoder → ℕ → Option Decoder
set_emm prv pid =
    let entry = prv.map pid in
    elim (if is_other entry.type then drop_target prv entry.target else some prv) [
      | none ↦ none
      | some prv1 ↦ some (record prv1 {
        emm_pid = pid;
        map = set_map prv1.map pid (record (prv1.map pid) { ref = 1; type = emm; target = null });
      })
    ]

unfoldable pub set_cat : Decoder → Decoder
set_cat prv = record prv {
  map = set_map prv.map 0x0001 (record (prv.map 0x0001) { ref = 1; type = cat; target = null });
}

-- What is done with a section of the right kind.
unfoldable pub use_cat : Decoder → Section → Option Decoder
use_cat prv sect = elim (ecm_bytes sect) [
  | none ↦ none
  | some bytes ↦
      let pid = find_ca_descriptor_pid bytes prv.ca_system_id in
      elim (if not (pid == 0x0000) && not (pid == 0x1fff) then set_emm prv pid else some prv) [
        | none ↦ none
        | some prv1 ↦ some (set_cat prv1)
      ]
]

-- Where `get` fails, it fills in no section.
unfoldable pub proc_cat : Decoder → Option (Code × Decoder)
proc_cat prv =
    let (n, sect, parser) = get prv.cat true in
    let prv1 = record prv { cat = parser } in
    elim sect [
      | none ↦ some (cat_parse_failure, prv1)
      | some handed ↦
          let given : Decoder → Decoder =
            λ prv2. record prv2 { cat = (ret parser (some handed)).1 } in
          if handed.sect.hdr.table_id == 0x01
          then elim (use_cat prv1 handed.sect) [ none ↦ none | some prv2 ↦ some (ok, given prv2) ]
          else some (warn_ts_section_id_missmatch, given prv1)
    ]
