-- ===== src/Buffers/Tests.antt =====
-- A buffer on the second channel of a small netlist.
use fpt2022_artifact.Common.{ℕ, ◌≡◌, refl, true, false, arith, Option, some, [], ◌∷◌}
use fpt2022_artifact.Common.Int.{pos}
use fpt2022_artifact.Common.Sets.{mem}
use fpt2022_artifact.Common.Text.{Str, str_eq, lookup}
use fpt2022_artifact.Netlist.Types.{Net}
use fpt2022_artifact.Netlist.Invariant.{HasChannel}
use fpt2022_artifact.Samples.{pipeline, pipeline-IsWellFormed}
use fpt2022_artifact.Netlist.Types.{◌>>=◌}
use fpt2022_artifact.Buffers.{insert_buffer, remove_buffer, instantiate_buffer}
use fpt2022_artifact.Buffers.Instantiate.{Instantiates, instantiate_buffer-Instantiates}
use fpt2022_artifact.Buffers.Remove.{Rejoins, remove_buffer-Rejoins}
use fpt2022_artifact.Buffers.RoundTrip.{Restores, remove_buffer-insert_buffer, inserted-IsPlaced}
use fpt2022_artifact.Buffers.Parts.{NamesApart, in_name, out_name}
use fpt2022_artifact.Buffers.Outcome.{Inserts}
use fpt2022_artifact.Buffers.Insert.{insert_buffer-Inserts}

-- A text of three characters is shorter than the name of a port of a new buffer.
short-in_name : (x y z : ℕ) (g : Str) → str_eq (x ∷ y ∷ z ∷ []) (in_name g) ≡ false
unfolding str_eq
short-in_name x y z [] = ground arith
short-in_name x y z (a ∷ []) = ground arith
short-in_name x y z (a ∷ b ∷ []) = ground arith
short-in_name x y z (a ∷ b ∷ c ∷ []) = ground arith
short-in_name x y z (a ∷ b ∷ c ∷ d ∷ g) = ground arith

short-out_name : (x y z : ℕ) (g : Str) → str_eq (x ∷ y ∷ z ∷ []) (out_name g) ≡ false
unfolding str_eq
short-out_name x y z [] = ground arith
short-out_name x y z (a ∷ []) = ground arith
short-out_name x y z (a ∷ b ∷ []) = ground arith
short-out_name x y z (a ∷ b ∷ c ∷ []) = ground arith
short-out_name x y z (a ∷ b ∷ c ∷ d ∷ g) = ground arith

pipeline-NamesApart : NamesApart pipeline
unfolding lookup str_eq
pipeline-NamesApart = record {
  no_empty = refl;
  no_input = λ g free. ground (
    arith,
    short-in_name b's' b':' b'o' g,
    short-in_name b'f' b':' b'i' g,
    short-in_name b'f' b':' b'o' g,
    short-in_name b'k' b':' b'i' g,
  );
  no_output = λ g free. ground (
    arith,
    short-out_name b's' b':' b'o' g,
    short-out_name b'f' b':' b'i' g,
    short-out_name b'f' b':' b'o' g,
    short-out_name b'k' b':' b'i' g,
  );
}

pipeline-HasChannel : HasChannel pipeline 1
unfolding mem
pipeline-HasChannel = refl

insert_buffer-Inserts_example :
    (r : Option ℕ × Net) × (insert_buffer (some 1) (pos 2) true pipeline ≡ some r)
    × Inserts pipeline 1 (pos 2) true r
insert_buffer-Inserts_example =
    insert_buffer-Inserts pipeline 1 (pos 2) true pipeline-IsWellFormed pipeline-HasChannel
      pipeline-NamesApart

remove_buffer-insert_buffer_example :
    (u : ℕ × Net) × ((insert_buffer (some 1) (pos 2) true >>= remove_buffer) pipeline ≡ some u)
    × Restores pipeline 1 u
remove_buffer-insert_buffer_example =
    remove_buffer-insert_buffer pipeline 1 (pos 2) true pipeline-IsWellFormed pipeline-HasChannel
      pipeline-NamesApart

-- The pipeline with a buffer on its second channel.
abbrev filled :
    (r : Option ℕ × Net) × (insert_buffer (some 1) (pos 2) true pipeline ≡ some r)
    × Inserts pipeline 1 (pos 2) true r
filled =
    insert_buffer-Inserts pipeline 1 (pos 2) true pipeline-IsWellFormed pipeline-HasChannel
      pipeline-NamesApart

remove_buffer-Rejoins_example :
    (r : ℕ × Net) × (remove_buffer (some filled.2.eb) filled.0.1 ≡ some r)
    × Rejoins filled.0.1 filled.2.eb filled.2.c_in filled.2.c_out r
remove_buffer-Rejoins_example =
    remove_buffer-Rejoins filled.0.1 filled.2.eb filled.2.inp filled.2.outp filled.2.c_in
      filled.2.c_out filled.2.formed (inserted-IsPlaced pipeline 1 (pos 2) true filled.0 filled.2)

instantiate_buffer-Instantiates_example :
    (t : Net) × (instantiate_buffer 1 pipeline ≡ some (tt, t)) × Instantiates pipeline 1 t
instantiate_buffer-Instantiates_example =
    instantiate_buffer-Instantiates pipeline 1 pipeline-IsWellFormed pipeline-HasChannel
      pipeline-NamesApart
