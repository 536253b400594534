-- ===== src/Section/Parser/Methods/Codes.antt =====
-- b1/ts_section_parser.c: which packets `put` refuses, and what it returns for the others.
use mathlib.Core.Path.{subst}
use recskapa.Base.{ℕ, ◌≡◌, ◌≢◌, ◌⊎◌, refl, arith, ◌==◌, Bool-cases, Option-cases, inl, inr}
use recskapa.Base.{List, [], ◌∷◌, Option, some, none, Bool, true, false}
use recskapa.Packet.Header.{TsHeader}
use recskapa.Section.Parser.{Code, invalid_param, invalid_ts_pid, Parser}
use recskapa.Section.Parser.Methods.{put_include_section_start, put_bytes, put}
use recskapa.Section.Parser.Methods.Total.{put-runs}
use recskapa.Section.Parser.Methods.OfData.{
  is_of_data, exclude-IsOfData, Accepted, include-Accepted,
}

-- The three ways in which a call ends: no bytes, another PID, and data of its PID.
abbrev pub Answer : Parser → TsHeader → List ℕ → Code × Parser → Type 0
Answer prv hdr bytes (c, prv') =
    ((bytes ≡ []) × (c ≡ invalid_param) × (prv' ≡ prv))
    ⊎ ((bytes ≢ [])
        × ((pid : ℕ) × (prv.pid ≡ some pid) × (pid ≢ hdr.pid))
        × (c ≡ invalid_ts_pid)
        × (prv' ≡ prv))
    ⊎ ((bytes ≢ [])
        × ((prv.pid ≡ none) ⊎ (prv.pid ≡ some hdr.pid))
        × (is_of_data c ≡ true)
        × (prv'.pid ≡ some hdr.pid))

abbrev Answers : Parser → TsHeader → List ℕ → Option (Code × Parser) → Type 0
Answers prv hdr bytes none = Unit {0}
Answers prv hdr bytes (some result) = Answer prv hdr bytes result

module _ (calloc : ℕ → Bool) where
  of_data :
      (prv : Parser) (hdr : TsHeader) (bytes : List ℕ) (result : Option (Code × Parser))
      → bytes ≢ []
      → (prv.pid ≡ none) ⊎ (prv.pid ≡ some hdr.pid)
      → Accepted (some hdr.pid) result
      → Answers prv hdr bytes result
  of_data prv hdr bytes none some_bytes own h = tt
  of_data prv hdr bytes (some (c, prv')) some_bytes own (fine, pid) =
      inr (inr (some_bytes, own, fine, pid))

  -- The test of the PID: there is none or it is the same, or it is another one.
  pid_cases :
      (own : Option ℕ) (pid : ℕ)
      → let checked : Bool = elim own [ none ↦ true | some n ↦ n == pid ] in
        ((checked ≡ true) × ((own ≡ none) ⊎ (own ≡ some pid)))
        ⊎ ((checked ≡ false) × ((n : ℕ) × (own ≡ some n) × (n ≢ pid)))
  pid_cases none pid = inl (refl, inl refl)
  pid_cases (some n) pid = elim (Bool-cases (n == pid)) [
    | inl e ↦ inl (e, inr (ground (arith, e)))
    | inr e ↦ inr (e, (n, refl, λ h. absurd (ground (arith, e, h))))
  ]

  bytes-Answers :
      (prv : Parser) (hdr : TsHeader) (bytes : List ℕ)
      → Answers prv hdr bytes (put_bytes calloc prv hdr bytes)
  unfolding put_bytes
  bytes-Answers prv hdr [] = inl (refl, refl, refl)
  bytes-Answers prv hdr (p0 ∷ rest) =
      let prv' : Parser = record prv { pid = some hdr.pid } in
      let some_bytes : (p0 ∷ rest) ≢ [] = λ e. absurd (ground (arith, e)) in
      elim (pid_cases prv.pid hdr.pid) [
        | inr (other, apart) ↦ rw other (inr (inl (some_bytes, apart, refl, refl)))
        | inl (same, own) ↦ elim (Bool-cases (hdr.payload_unit_start_indicator == 0)) [
          | inl e ↦
              let excluded = exclude-IsOfData prv' (p0 ∷ rest) in
              rw (same, e) (inr (inr (some_bytes, own, excluded.0, excluded.1)))
          | inr e ↦
              rw (same, e)
                (of_data prv hdr (p0 ∷ rest) (put_include_section_start calloc p0 prv' rest)
                  some_bytes own (include-Accepted calloc p0 prv' rest))
        ]
      ]

  -- On every state, header and bytes, `put` ends in one of three ways. Without bytes, it returns
  -- that a parameter is invalid; if the parser has another PID than the packet, that the PID is
  -- invalid; and both leave the parser as it was. Otherwise it returns 0, one of the two warnings or
  -- that there is no memory, and the parser has the PID of the packet.
  pub put-codes :
      (prv : Parser) (hdr : TsHeader) (bytes : List ℕ)
      → (c : Code) × (prv' : Parser) × (put calloc (some prv) (some hdr) (some bytes)
          ≡ some (c, some prv'))
        × Answer prv hdr bytes (c, prv')
  unfolding put
  put-codes prv hdr bytes = elim (Option-cases (put_bytes calloc prv hdr bytes)) [
    | inl e ↦ absurd (put-runs calloc (some prv) (some hdr) (some bytes) (rw (put, e) refl))
    | inr ((c, prv'), e) ↦ (
      c,
      prv',
      rw (put, e) refl,
      subst (λ x. Answers prv hdr bytes x) e (bytes-Answers prv hdr bytes),
    )
  ]
