-- ===== src/Decoder/Tests.antt =====
-- b1/arib_std_b1.c: the theorems at a decoder with one stream, whose decryptor is made, bound and
-- given up.
use recskapa.Base.{ℕ, ◌<◌, ◌≡◌, ◌⊎◌, refl, arith, All, IsByte}
use recskapa.Base.{List, [], ◌∷◌, some, none, Bool, true, some-injective, sym, ap, ◌∙◌}
use mathlib.Core.Path.{subst}
use recskapa.Section.Parser.Methods.{create_ts_section_parser}
use recskapa.Decoder.Descriptor.{
  find_ca_from, find_ca_descriptor_pid, HasNoCa, IsInCa, find_ca_descriptor_pid_lem,
}
use recskapa.Decoder.Decryptor.{
  update_dec, unlink_dec, add_binding, set_target, reset_entry, drop_target, drop_ref,
  remove_decryptor,
}
use recskapa.Decoder.{
  ecm, other, null, program, decryptor, DecryptorElem, Decoder, zero_map, set_map,
}
use recskapa.Decoder.Decryptor.{
  find_dec, set_decryptor, bind_stream_decryptor, unref_stream, unref_all,
}
use recskapa.Decoder.Decryptor.Refs.{pid_max}
use recskapa.Decoder.Decryptor.Counted.{Counted, no_one, replace, replace-Counted}
use recskapa.Decoder.Decryptor.Streams.{unref_stream-Counted, unref_all-Counted}
use recskapa.Decoder.Decryptor.Bind.{bind_stream_decryptor-Counted}
use recskapa.Decoder.Decryptor.Set.{Sets, set_decryptor-Counted}

abbrev empty_decoder : Decoder
empty_decoder = record {
  multi2_round = 4;
  strip = true;
  unit_size = 188;
  sbuf_offset = 0;
  pat = none;
  cat = none;
  strm_pool = record { elems = []; count = 0 };
  program = [];
  decrypt = [];
  map = λ pid. zero_map;
  ca_system_id = 5;
  emm_pid = 0;
  sbuf = record { before = 0; bytes = []; max = 0 };
  dbuf = record { before = 0; bytes = []; max = 0 };
  next_id = 0;
  allocs = 0;
}

abbrev no_limit : ℕ → Bool
no_limit n = true

stream_pid : 0x100 < pid_max
unfolding pid_max
stream_pid = omega arith

ecm_pid : 0x200 < pid_max
unfolding pid_max
ecm_pid = omega arith

empty_decoder-Counted : Counted no_one empty_decoder
unfolding find_dec
empty_decoder-Counted = record {
  exact = λ id d found. absurd (ground (arith, found));
  points = λ pid lt. refl;
  fresh = λ id d found. absurd (ground (arith, found));
  alive = λ id held_id. absurd (held_id refl);
}

-- A decoder in which one program has one stream.
abbrev one_stream : Decoder
one_stream =
    replace empty_decoder 0x100
      (record { ref = 1; type = other; normal_packet = 0; undecrypted = 0; target = null })

one_stream-Counted : Counted no_one one_stream
one_stream-Counted =
    replace-Counted no_one no_one empty_decoder 0x100
      (record { ref = 1; type = other; normal_packet = 0; undecrypted = 0; target = null })
      stream_pid (λ id. refl) tt empty_decoder-Counted

set_decryptor-Counted_example : Sets no_limit no_one one_stream 0x200
set_decryptor-Counted_example =
    set_decryptor-Counted no_limit no_one one_stream 0x200 ecm_pid refl one_stream-Counted

abbrev key_source : ℕ → DecryptorElem
key_source ref = record {
  id = 0;
  ref = ref;
  phase = 0;
  locked = 0;
  ecm_pid = 0x200;
  ecm = create_ts_section_parser;
  m2 = none;
  unpurchased = 0;
  last_error = 0;
}

abbrev with_decryptor : Decoder
with_decryptor = record one_stream {
  decrypt = key_source 0 ∷ [];
  map = set_map one_stream.map 0x200 (record zero_map { type = ecm; target = decryptor 0 });
  next_id = 1;
  allocs = 2;
}

made_decryptor : set_decryptor no_limit one_stream 0x200 ≡ some (some 0, with_decryptor)
unfolding set_decryptor
made_decryptor = refl

with_decryptor-Counted : Counted no_one with_decryptor
with_decryptor-Counted =
    let (r, prv, e, c, answer) = set_decryptor-Counted_example in
    subst (λ x. Counted no_one x.1) (some-injective (sym e ∙ made_decryptor)) c

bind_stream_decryptor-Counted_example :
    (prv : Decoder) × (bind_stream_decryptor with_decryptor 0x100 (some 0) ≡ some prv)
    × Counted no_one prv
unfolding find_dec
bind_stream_decryptor-Counted_example =
    bind_stream_decryptor-Counted no_one with_decryptor 0x100 (some 0) stream_pid refl
      (λ id e. (key_source 0, ap (λ k. find_dec k with_decryptor.decrypt) (sym (some-injective e))))
      with_decryptor-Counted

abbrev pub with_binding : Decoder
with_binding = record with_decryptor {
  decrypt = key_source 1 ∷ [];
  map =
      set_map with_decryptor.map 0x100 (record (with_decryptor.map 0x100) { target = decryptor 0 });
}

bound_stream : bind_stream_decryptor with_decryptor 0x100 (some 0) ≡ some with_binding
unfolding bind_stream_decryptor add_binding find_dec update_dec set_target
bound_stream = refl

pub with_binding-Counted : Counted no_one with_binding
with_binding-Counted =
    let (prv, e, c) = bind_stream_decryptor-Counted_example in
    subst (λ x. Counted no_one x) (some-injective (sym e ∙ bound_stream)) c

unref_stream-Counted_example :
    (prv : Decoder) × (unref_stream with_binding 0x100 ≡ some prv) × Counted no_one prv
unref_stream-Counted_example =
    unref_stream-Counted no_one with_binding 0x100 stream_pid with_binding-Counted

-- The decryptor goes with its last stream.
unref_removes :
    elim (unref_stream with_binding 0x100) [ none ↦ key_source 0 ∷ [] | some prv ↦ prv.decrypt ]
    ≡ []
unfolding unref_stream reset_entry drop_target drop_ref find_dec remove_decryptor unlink_dec
unref_removes = refl

unref_all-Counted_example :
    (prv : Decoder) × (unref_all with_binding (record { pid = 0x100; type = 2 } ∷ []) ≡ some prv)
    × Counted no_one prv
unref_all-Counted_example =
    unref_all-Counted no_one with_binding (record { pid = 0x100; type = 2 } ∷ []) (stream_pid, tt)
      with_binding-Counted

-- An entry that still points to a program.
abbrev reused : Decoder
reused =
    replace empty_decoder 0x100
      (record { ref = 1; type = other; normal_packet = 0; undecrypted = 0; target = program 0 })

-- Its pointer is followed as if it were one to a decryptor.
bind_wrong : bind_stream_decryptor reused 0x100 none ≡ none
unfolding bind_stream_decryptor
bind_wrong = refl

-- A descriptor of another kind before that of the system 5.
abbrev two_descriptors : List ℕ
two_descriptors = 1 ∷ 1 ∷ 7 ∷ 9 ∷ 4 ∷ 0 ∷ 5 ∷ 0xe2 ∷ 0 ∷ []

two_bytes : All IsByte two_descriptors
two_bytes = ground arith

find_ca_descriptor_pid_lem_example :
    ((find_ca_descriptor_pid two_descriptors 5 ≡ 0) × HasNoCa two_descriptors 5)
    ⊎ IsInCa two_descriptors 5 (find_ca_descriptor_pid two_descriptors 5)
find_ca_descriptor_pid_lem_example = find_ca_descriptor_pid_lem two_descriptors 5 two_bytes

found_pid : find_ca_descriptor_pid two_descriptors 5 ≡ 0x200
unfolding find_ca_descriptor_pid find_ca_from
found_pid = refl
