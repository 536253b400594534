-- ===== src/Decoder/Glue/Clear.antt =====
-- decoder.c and b1/arib_std_b1.c: what `b1_decode` returns for packets that are not scrambled.
use mathlib.Core.Path.{subst}
use recskapa.Base.{
  ℕ, ◌*◌, ◌≡◌, refl, sym, ap, ◌∙◌, ltb, take, drop, List, [], ◌++◌, some, true, false, Bool-cases,
  inl, inr,
}
use recskapa.Decoder.{ok, Decoder}
use recskapa.Decoder.Flow.{proc_arib_std_b1}
use recskapa.Decoder.Flow.Clear.{is_clear_run}
use recskapa.Decoder.Flow.Clear.Runs.{OnlyCounts, proc_arib_std_b1_clear, refuted}
use recskapa.Decoder.Glue.{b1_decode}
use recskapa.Decoder.Methods.{get_arib_std_b1}
use recskapa.Decoder.Methods.Input.{
  has_programs, search_stage, put_stages, put_input, put_arib_std_b1,
}
use recskapa.Decoder.Phase.{check_pmt_complete, check_ecm_complete}
use recskapa.Decoder.Platform.{Platform, System, done}
use recskapa.Stream.WorkBuffer.{WorkBuffer, append_work_buffer, reset_work_buffer}
use recskapa.Stream.WorkBuffer.Append.{Fits, append_work_buffer-Fits, reset_work_buffer_bytes}

-- The tables that `put` waits for were read.
abbrev pub IsStarted : Decoder → Type 0
IsStarted prv =
    (has_programs prv ≡ true) × (check_pmt_complete prv ≡ true) × (check_ecm_complete prv ≡ true)

module _ {W : Type 0} (on : Platform W) where
  put_stages_started :
      (sys : System W) → IsStarted sys.prv → put_stages on sys ≡ proc_arib_std_b1 on sys
  unfolding put_stages search_stage
  put_stages_started sys (programs, pmts, ecms) = rw (put_stages, programs, pmts, ecms) refl

  input_kept :
      (prv : Decoder) (sbuf : WorkBuffer) → IsStarted prv → IsStarted (record prv { sbuf = sbuf })
  unfolding check_pmt_complete check_ecm_complete
  input_kept prv sbuf started = started

  append_enough :
      (buf : WorkBuffer) (bytes : List ℕ)
      → ((size : ℕ) → on.malloc size ≡ true)
      → Fits buf
      → ((append_work_buffer on.malloc buf bytes).0 ≡ true)
        × ((append_work_buffer on.malloc buf bytes).1.bytes ≡ buf.bytes ++ bytes)
  append_enough buf bytes memory fits =
      let (fits', all, nothing) = append_work_buffer-Fits on.malloc buf bytes fits in
      elim (Bool-cases (append_work_buffer on.malloc buf bytes).0) [
        | inl enough ↦ (enough, all enough)
        | inr short ↦ absurd (refuted _ (nothing short).1 (memory _))
      ]

  put_input_started :
      (sys : System W) (bytes : List ℕ)
      → (append_work_buffer on.malloc sys.prv.sbuf bytes).0 ≡ true
      → ltb sys.prv.unit_size 188 ≡ false
      → IsStarted sys.prv
      → put_input on sys bytes
        ≡ proc_arib_std_b1 on (record sys {
          prv = record sys.prv { sbuf = (append_work_buffer on.malloc sys.prv.sbuf bytes).1 };
        })
  unfolding put_input
  put_input_started sys bytes enough wide started =
      rw (put_input, enough, wide)
        (rw wide (
          put_stages_started
            (record sys {
              prv = record sys.prv { sbuf = (append_work_buffer on.malloc sys.prv.sbuf bytes).1 };
            })
            (input_kept sys.prv (append_work_buffer on.malloc sys.prv.sbuf bytes).1 started)))

  -- If there is memory, both buffers are inside theirs, the units have 188 bytes, the tables were read,
  -- and the bytes that are there with the new ones are a run of `n` packets that are clear and carry
  -- no table, `b1_decode` returns 0 and what was put out before with these packets as they are and in
  -- their order; the rest of the input stays for the next call, the output is empty then, and only
  -- the two buffers and the counts of packets change.
  pub b1_decode_clear :
      (sys : System W) (sbuf : List ℕ) (n : ℕ)
      → ((size : ℕ) → on.malloc size ≡ true)
      → Fits sys.prv.sbuf
      → Fits sys.prv.dbuf
      → sys.prv.unit_size ≡ 188
      → IsStarted sys.prv
      → is_clear_run sys.prv.strip (λ pid. (sys.prv.map pid).type) n (sys.prv.sbuf.bytes ++ sbuf)
        ≡ true
      → let input = sys.prv.sbuf.bytes ++ sbuf in
        (sys' : System W) × (b1_decode on sys sbuf
          ≡ done (ok, some (sys.prv.dbuf.bytes ++ take (188 * n) input), some sys'))
        × (sys'.prv.sbuf.bytes ≡ drop (188 * n) input)
        × (sys'.prv.dbuf.bytes ≡ [])
        × (sys' ≡ record sys {
          prv = record sys.prv { map = sys'.prv.map; sbuf = sys'.prv.sbuf; dbuf = sys'.prv.dbuf };
        })
        × OnlyCounts sys.prv.map sys'.prv.map
  unfolding b1_decode put_arib_std_b1 get_arib_std_b1
  b1_decode_clear sys sbuf n memory fits out_fits unit started run =
      let (enough, all) = append_enough sys.prv.sbuf sbuf memory fits in
      let sys1 : System W = record sys {
        prv = record sys.prv { sbuf = (append_work_buffer on.malloc sys.prv.sbuf sbuf).1 };
      } in
      let wide : ltb sys.prv.unit_size 188 ≡ false = ap (λ u. ltb u 188) unit in
      let (sys', proc, out, rest, same, counts) =
        proc_arib_std_b1_clear on sys1 n memory out_fits unit (
          subst (λ bytes. is_clear_run sys.prv.strip (λ pid. (sys.prv.map pid).type) n bytes ≡ true)
            (sym all) run) in
      let reset = reset_work_buffer sys'.prv.dbuf in
      (
        record sys' { prv = record sys'.prv { dbuf = reset } },
        rw (b1_decode, put_arib_std_b1, put_input_started sys sbuf enough wide started, proc)
            (ap
              (λ (bytes : List ℕ).
                done
                  (ok, some bytes, some (record sys' { prv = record sys'.prv { dbuf = reset } })))
              (out ∙ ap (λ bytes. sys.prv.dbuf.bytes ++ take (188 * n) bytes) all)),
        rest ∙ ap (λ bytes. drop (188 * n) bytes) all,
        reset_work_buffer_bytes sys'.prv.dbuf,
        ap
            (λ (s : System W). record s {
              prv = record s.prv { map = sys'.prv.map; sbuf = sys'.prv.sbuf; dbuf = reset };
            })
            same,
        counts,
      )
