-- ===== src/Decoder/Flow/Clear/Runs.antt =====
-- b1/arib_std_b1.c: a run of packets that are not scrambled and carry no table.
use recskapa.Base.Split.{take_add, drop_add}
use mathlib.Core.List.{append-nil, append_assoc}
use recskapa.Base.{
  ℕ, zero, suc, ◌+◌, ◌-◌, ◌*◌, ◌/◌, ◌||◌, ◌≤◌, ◌<◌, ◌≡◌, ◌==◌, ==_iff, refl, sym, ap, ◌∙◌, arith,
  ltb, get_or, length, take, drop, length-drop, List, ◌++◌, ◌&&◌, some, Bool, true, false,
  Bool-cases, inl, inr,
}
use recskapa.Decoder.{Code, ok, Decoder, PidMap, PidType, set_map}
use recskapa.Decoder.Flow.{
  count_normal, output, next_packet, packet_loop, run_packets, proc_arib_std_b1, keep_rest,
}
use recskapa.Decoder.Flow.Clear.{is_clear, is_clear_run, copied_state, one_packet_clear}
use recskapa.Decoder.Platform.{Platform, System, done}
use recskapa.Packet.Header.{extract_ts_header}
use recskapa.Stream.WorkBuffer.{WorkBuffer, reserve_work_buffer}
use recskapa.Stream.WorkBuffer.Append.{Fits, append_work_buffer-Fits, reserve_work_buffer-Fits}

both : (a b : Bool) → (a && b) ≡ true → (a ≡ true) × (b ≡ true)
both true b e = (refl, e)
both false b e = absurd (ground (arith, e))

above : (k n : ℕ) → ltb k n ≡ true → suc k ≤ n
above k n e = ground (arith, e)

not_below : (k n : ℕ) → k ≤ n → ltb n k ≡ false
not_below k n h = ground (arith, h)

is_clear_types :
    (strip : Bool) (type type' : ℕ → PidType) (bytes : List ℕ)
    → ((pid : ℕ) → type' pid ≡ type pid)
    → is_clear strip type bytes ≡ true
    → is_clear strip type' bytes ≡ true
unfolding is_clear
is_clear_types strip type type' bytes types e = rw (types (extract_ts_header bytes).pid) e

-- What a run of at least one packet says.
is_clear_run_first :
    (strip : Bool) (type : ℕ → PidType) (n : ℕ) (bytes : List ℕ)
    → is_clear_run strip type (suc n) bytes ≡ true
    → (189 ≤ length bytes)
      × ((get_or bytes 0 0 == 0x47 && get_or bytes 188 0 == 0x47) ≡ true)
      × (is_clear strip type bytes ≡ true)
      × (is_clear_run strip type n (drop 188 bytes) ≡ true)
unfolding is_clear_run
is_clear_run_first strip type n bytes run =
    let (run1, later) = both _ (is_clear_run strip type n (drop 188 bytes)) run in
    let (run2, here) = both _ (is_clear strip type bytes) run1 in
    let (run3, behind) = both _ (get_or bytes 188 0 == 0x47) run2 in
    let (long, sync) = both (ltb 188 (length bytes)) (get_or bytes 0 0 == 0x47) run3 in
    (above 188 (length bytes) long, rw (sync, behind) refl, here, later)

next_packet_here :
    (bytes : List ℕ)
    → 189 ≤ length bytes
    → (get_or bytes 0 0 == 0x47 && get_or bytes 188 0 == 0x47) ≡ true
    → next_packet false 188 bytes ≡ some 0
next_packet_here bytes long synced =
    let longer : ltb 188 (length bytes) ≡ true = ground (arith, long) in rw (longer, synced) refl

one_more : (n : ℕ) → 188 + 188 * n ≡ 188 * suc n
one_more n = omega arith

keep_rest_bytes : (sbuf : WorkBuffer) (rest : List ℕ) → (keep_rest sbuf rest).bytes ≡ rest
keep_rest_bytes sbuf rest =
    let far = length sbuf.bytes - length rest in
    elim (Bool-cases (ltb (length rest) 1024 || ltb (sbuf.max / 2) far)) [
      | inl e ↦ rw e refl
      | inr e ↦ rw e refl
    ]

pub refuted : (b : Bool) → b ≡ false → b ≡ true → ⊥
refuted b e f = ground (arith, e, f)

-- No field but the count of packets changes.
abbrev pub OnlyCounts : (ℕ → PidMap) → (ℕ → PidMap) → Type 0
OnlyCounts map map' =
    (pid : ℕ) → map' pid ≡ record (map pid) { normal_packet = (map' pid).normal_packet }

set_map-OnlyCounts :
    (map : ℕ → PidMap) (pid : ℕ)
    → OnlyCounts map
        (set_map map pid (record (map pid) { normal_packet = (map pid).normal_packet + 1 }))
set_map-OnlyCounts map pid i = elim (Bool-cases (i == pid)) [
  | inl e ↦ rw e (
      ap (λ k. record (map k) { normal_packet = (map pid).normal_packet + 1 })
        (sym ((==_iff i pid).0 e)))
  | inr e ↦ rw e refl
]

OnlyCounts-OnlyCounts :
    (map map1 map2 : ℕ → PidMap) → OnlyCounts map map1 → OnlyCounts map1 map2 → OnlyCounts map map2
OnlyCounts-OnlyCounts map map1 map2 h k pid =
    k pid
    ∙ ap (λ (entry : PidMap). record entry { normal_packet = (map2 pid).normal_packet }) (h pid)

module _ {W : Type 0} (on : Platform W) where
  -- What a run of such packets does with the state: only counts and the output change.
  abbrev Moved : System W → List ℕ → System W → Type 0
  Moved sys bytes sys' =
      (sys'.prv.dbuf.bytes ≡ sys.prv.dbuf.bytes ++ bytes)
      × (sys' ≡ record sys { prv = record sys.prv { map = sys'.prv.map; dbuf = sys'.prv.dbuf } })
      × OnlyCounts sys.prv.map sys'.prv.map

  output_granted :
      (prv : Decoder) (bytes : List ℕ)
      → ((size : ℕ) → on.malloc size ≡ true)
      → Fits prv.dbuf
      → let (enough, prv') = output on.malloc prv bytes in
        (enough ≡ true) × Fits prv'.dbuf × (prv'.dbuf.bytes ≡ prv.dbuf.bytes ++ take 188 bytes)
  output_granted prv bytes memory fits =
      let (fits', all, nothing) =
        append_work_buffer-Fits on.malloc prv.dbuf (take 188 bytes) fits in
      elim (Bool-cases (output on.malloc prv bytes).0) [
        | inl enough ↦ (enough, fits', all enough)
        | inr short ↦ absurd (refuted _ (nothing short).1 (memory _))
      ]

  -- Counting a packet changes no type.
  types_kept :
      (map : ℕ → PidMap) (pid : ℕ) (type : ℕ → PidType)
      → ((i : ℕ) → (map i).type ≡ type i)
      → (i : ℕ)
      → (set_map map pid (record (map pid) { normal_packet = (map pid).normal_packet + 1 }) i).type
        ≡ type i
  types_kept map pid type types i = elim (Bool-cases (i == pid)) [
    | inl e ↦ let same : i ≡ pid = (==_iff i pid).0 e in rw e (types pid ∙ ap type (sym same))
    | inr e ↦ ground (arith, e, types i)
  ]

  packet_loop_clear :
      (n fuel : ℕ) (r : Code) (sys : System W) (bytes : List ℕ) (type : ℕ → PidType)
      → ((size : ℕ) → on.malloc size ≡ true)
      → Fits sys.prv.dbuf
      → ((pid : ℕ) → (sys.prv.map pid).type ≡ type pid)
      → is_clear_run sys.prv.strip type n bytes ≡ true
      → length bytes < fuel
      → (sys' : System W) × (packet_loop on false fuel 188 r sys bytes
          ≡ done (r, sys', drop (188 * n) bytes))
        × Moved sys (take (188 * n) bytes) sys'
  unfolding packet_loop is_clear_run
  packet_loop_clear n zero r sys bytes type memory fits types run fuelled =
      absurd (omega (arith, fuelled))
  packet_loop_clear zero (suc fuel) r sys bytes type memory fits types run fuelled =
      let last : ltb 188 (length bytes) ≡ false = ground (arith, run) in
      (sys, rw (packet_loop, last) refl, (sym (append-nil sys.prv.dbuf.bytes), refl, λ pid. refl))
  packet_loop_clear (suc n) (suc fuel) r sys bytes type memory fits types run fuelled =
      let hdr = extract_ts_header bytes in
      let (long, synced, here, later) = is_clear_run_first sys.prv.strip type n bytes run in
      let clear =
        is_clear_types sys.prv.strip type (λ pid. (sys.prv.map pid).type) bytes types here in
      let sys1 = copied_state on sys bytes in
      let (enough, fits1, output1) =
        output_granted (count_normal sys.prv hdr.pid) bytes memory fits in
      let (sys', loop, (output', same, counts)) =
        packet_loop_clear n fuel r sys1 (drop 188 bytes) type memory fits1
          (types_kept sys.prv.map hdr.pid type types) later
          (omega (arith, fuelled, length-drop 188 bytes, long)) in
      let here_first = next_packet_here bytes long synced in
      let copied = one_packet_clear on r sys bytes clear enough in
      let inside : ltb (length bytes) 188 ≡ false =
        not_below 188 (length bytes) (omega (arith, long)) in
      let rest = sym (drop_add 188 (188 * n) bytes) ∙ ap (λ k. drop k bytes) (one_more n) in
      let all = sym (take_add 188 (188 * n) bytes) ∙ ap (λ k. take k bytes) (one_more n) in
      (
        sys',
        rw (packet_loop, here_first, copied, inside)
            (loop ∙ ap (λ left. done (r, sys', left)) rest),
        (
          output'
              ∙ ap (λ out. out ++ take (188 * n) (drop 188 bytes)) output1
              ∙ append_assoc sys.prv.dbuf.bytes (take 188 bytes) (take (188 * n) (drop 188 bytes))
              ∙ ap (λ out. sys.prv.dbuf.bytes ++ out) all,
          same,
          OnlyCounts-OnlyCounts sys.prv.map sys1.prv.map sys'.prv.map
              (set_map-OnlyCounts sys.prv.map hdr.pid) counts,
        ),
      )

  -- If there is memory, the units have 188 bytes and the input is a run of `n` packets that are clear
  -- and carry no table, `proc_arib_std_b1` ends without an error; it puts the packets behind the
  -- output as they are and in their order, keeps the rest of the input, and changes nothing else than
  -- the counts of packets and the buffers.
  pub proc_arib_std_b1_clear :
      (sys : System W) (n : ℕ)
      → ((size : ℕ) → on.malloc size ≡ true)
      → Fits sys.prv.dbuf
      → sys.prv.unit_size ≡ 188
      → is_clear_run sys.prv.strip (λ pid. (sys.prv.map pid).type) n sys.prv.sbuf.bytes ≡ true
      → (sys' : System W) × (proc_arib_std_b1 on sys ≡ done (ok, sys'))
        × (sys'.prv.dbuf.bytes ≡ sys.prv.dbuf.bytes ++ take (188 * n) sys.prv.sbuf.bytes)
        × (sys'.prv.sbuf.bytes ≡ drop (188 * n) sys.prv.sbuf.bytes)
        × (sys' ≡ record sys {
          prv = record sys.prv { map = sys'.prv.map; dbuf = sys'.prv.dbuf; sbuf = sys'.prv.sbuf };
        })
        × OnlyCounts sys.prv.map sys'.prv.map
  unfolding run_packets
  proc_arib_std_b1_clear sys n memory fits unit run =
      let input = sys.prv.sbuf.bytes in
      let size = length sys.prv.dbuf.bytes + length input in
      let sys1 : System W = record sys {
        prv = record sys.prv { dbuf = (reserve_work_buffer on.malloc sys.prv.dbuf size).1 };
      } in
      let (granted, fits1, kept) =
        reserve_work_buffer-Fits on.malloc sys.prv.dbuf size memory fits (omega arith) in
      let (sys', loop, (output', same, counts)) =
        packet_loop_clear n (suc (length input)) ok sys1 input (λ pid. (sys.prv.map pid).type)
          memory fits1 (λ pid. refl) run (omega arith) in
      let sbuf' = keep_rest sys'.prv.sbuf (drop (188 * n) input) in
      (
        record sys' { prv = record sys'.prv { sbuf = sbuf' } },
        rw
            (
              run_packets,
              granted,
              ap (λ u. packet_loop on false (suc (length input)) u ok sys1 input) unit ∙ loop,
            )
            refl,
        output' ∙ ap (λ bytes. bytes ++ take (188 * n) input) kept,
        keep_rest_bytes sys'.prv.sbuf (drop (188 * n) input),
        ap
            (λ (s : System W). record s {
              prv = record s.prv { map = sys'.prv.map; dbuf = sys'.prv.dbuf; sbuf = sbuf' };
            })
            same,
        counts,
      )
