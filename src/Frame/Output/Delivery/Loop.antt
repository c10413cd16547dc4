-- ===== src/Frame/Output/Delivery/Loop.antt =====
-- What the frames of `processLoop` become in each format, while no write fails.
use Prim.Native.String.{String}
use mathlib.Core.List.{append-nil}
use thermal_recovery_flow.Base.{
  ℕ, ◌+◌, ◌^◌, ◌<◌, ◌≡◌, refl, sym, ap, true, Option, none, some, List, [], ◌∷◌, ◌++◌, arith,
  if◌then◌else◌, ltb, length, length-append, All, Result, ok, err,
}
use thermal_recovery_flow.Base.Float.{Float}
use thermal_recovery_flow.Driftflux.{HydrodynamicsFrame}
use thermal_recovery_flow.Frame.{
  OutputFormat, format_json, format_csv, format_binary, Formats, csv_record, serialize_binary,
  serialize_json,
}
use thermal_recovery_flow.Frame.Output.{
  FrameOutput, Moment, is_csv, serialize_csv, serialize_frame, deliver, process_frame, process_loop,
}
use thermal_recovery_flow.Frame.Output.Delivery.{
  IsReliable, IsReady, audiences, IsDelivered, hears-nil, nothing-IsDelivered, IsDelivered-trans,
  deliver_nothing, deliver-IsDelivered,
}

abbrev pub encoded_bytes : {E : Type 0} → Result E (List ℕ) → List ℕ
encoded_bytes (ok bytes) = bytes
encoded_bytes (err e) = []

module _ {E F : Type 0} (std : Formats E F) ⦃float : Float F⦄ (format : OutputFormat) where
  -- The bytes and the records of a frame in each format; what can not be encoded has none.
  abbrev pub bytes_of : HydrodynamicsFrame F → List ℕ
  bytes_of h = elim format [
    | format_json ↦ encoded_bytes (serialize_json std h)
    | format_csv ↦ []
    | format_binary ↦ serialize_binary std h
  ]

  abbrev pub rows_of : HydrodynamicsFrame F → List (List String)
  rows_of h = if is_csv format then csv_record std h ∷ [] else []

  abbrev pub piece : List ℕ → ℕ
  piece bytes = if ltb 0 (length bytes) then 1 else 0

  abbrev pub all_bytes : List (Moment E × Option (HydrodynamicsFrame F)) → List ℕ
  all_bytes [] = []
  all_bytes ((m, none) ∷ rest) = all_bytes rest
  all_bytes ((m, some h) ∷ rest) = bytes_of h ++ all_bytes rest

  abbrev pub all_rows : List (Moment E × Option (HydrodynamicsFrame F)) → List (List String)
  all_rows [] = []
  all_rows ((m, none) ∷ rest) = all_rows rest
  all_rows ((m, some h) ∷ rest) = rows_of h ++ all_rows rest

  abbrev pub pieces : List (Moment E × Option (HydrodynamicsFrame F)) → ℕ
  pieces [] = 0
  pieces ((m, none) ∷ rest) = pieces rest
  pieces ((m, some h) ∷ rest) = piece (bytes_of h) + pieces rest

module _ {E F : Type 0} (std : Formats E F) ⦃float : Float F⦄ where
  record_row : FrameOutput → HydrodynamicsFrame F → FrameOutput
  record_row o h = record o { csv_rows = o.csv_rows ++ csv_record std h ∷ [] }

  serialize_csv-ok :
      (o : FrameOutput) (m : Moment E) (h : HydrodynamicsFrame F)
      → IsReliable m
      → o.csv_writer ≡ true
      → serialize_csv std o m h ≡ (record_row o h, ok [])
  unfolding serialize_csv record_row
  serialize_csv-ok o m h r v = ground (arith, r.csv)

  record_row-IsDelivered :
      (o : FrameOutput) (h : HydrodynamicsFrame F)
      → IsReady format_csv o
      → IsDelivered format_csv o (record_row o h) 0 [] (rows_of std format_csv h)
  unfolding record_row
  record_row-IsDelivered o h v = record {
    file = sym (append-nil o.file_data);
    csv = refl;
    frames_written = omega arith;
    bytes_written = omega arith;
    clients = sym (hears-nil (audiences o));
    ready = ground arith;
  }

  serialize_frame-format :
      (format : OutputFormat) (o : FrameOutput) (m : Moment E) (h : HydrodynamicsFrame F)
      → o.config.format ≡ format
      → serialize_frame std o m h ≡ elim format [
        | format_json ↦ (o, serialize_json std h)
        | format_csv ↦ serialize_csv std o m h
        | format_binary ↦ (o, ok (serialize_binary std h))
      ]
  unfolding serialize_frame
  serialize_frame-format format o m h e = ap by_format e
    where
      by_format : OutputFormat → FrameOutput × Result E (List ℕ)
      by_format format_json = (o, serialize_json std h)
      by_format format_csv = serialize_csv std o m h
      by_format format_binary = (o, ok (serialize_binary std h))

  encoded-IsDelivered :
      (m : Moment E)
      → IsReliable m
      → (o : FrameOutput) (encoded : Result E (List ℕ)) → IsReady format_json o
      → o.frames_written + 1 < 2 ^ 64
      → o.bytes_written + length (encoded_bytes encoded) < 2 ^ 64
      → IsDelivered format_json o
          (deliver (o, encoded) m)
          (if ltb 0 (length (encoded_bytes encoded)) then 1 else 0)
          (encoded_bytes encoded)
          []
  unfolding deliver
  encoded-IsDelivered m r o (err e) v room₁ room₂ = nothing-IsDelivered o v
  encoded-IsDelivered m r o (ok bytes) v room₁ room₂ =
      deliver-IsDelivered m r format_json o bytes v room₁ room₂

  process_frame-IsDelivered :
      (format : OutputFormat) (o : FrameOutput) (m : Moment E) (h : HydrodynamicsFrame F)
      → IsReliable m
      → IsReady format o
      → o.frames_written + 1 < 2 ^ 64
      → o.bytes_written + length (bytes_of std format h) < 2 ^ 64
      → IsDelivered format o
          (process_frame std o (m, some h))
          (piece std format (bytes_of std format h))
          (bytes_of std format h)
          (rows_of std format h)
  unfolding process_frame
  process_frame-IsDelivered format_binary o m h r v room₁ room₂ =
      rw (serialize_frame-format format_binary o m h v.is_format)
        (deliver-IsDelivered m r format_binary o (serialize_binary std h) v room₁ room₂)
  process_frame-IsDelivered format_csv o m h r v room₁ room₂ =
      rw (serialize_frame-format format_csv o m h v.is_format, serialize_csv-ok o m h r v.csv)
        (rw (deliver_nothing m r (record_row o h)) (record_row-IsDelivered o h v))
  process_frame-IsDelivered format_json o m h r v room₁ room₂ =
      rw (serialize_frame-format format_json o m h v.is_format)
        (encoded-IsDelivered m r o (serialize_json std h) v room₁ room₂)

  -- While the output file is open, with the CSV writer exactly in the CSV format, no write fails
  -- and no counter wraps, `processLoop` hands the bytes of every frame, in their order, to the file
  -- and to every client that listens, counts each frame that has bytes, and all bytes, and leaves
  -- the file open. In the CSV format the records go to the CSV writer, and no frame is counted or
  -- reaches a client.
  pub process_loop-IsDelivered :
      (format : OutputFormat) (inputs : List (Moment E × Option (HydrodynamicsFrame F)))
      (o : FrameOutput)
      → All (λ i. IsReliable (i.0)) inputs
      → IsReady format o
      → o.frames_written + length inputs < 2 ^ 64
      → o.bytes_written + length (all_bytes std format inputs) < 2 ^ 64
      → IsDelivered format o
          (process_loop std o inputs)
          (pieces std format inputs)
          (all_bytes std format inputs)
          (all_rows std format inputs)
  unfolding process_loop process_frame
  process_loop-IsDelivered format [] o r v room₁ room₂ = nothing-IsDelivered o v
  process_loop-IsDelivered format ((m, none) ∷ rest) o (r, rs) v room₁ room₂ =
      process_loop-IsDelivered format rest o rs v (omega arith) room₂
  process_loop-IsDelivered format ((m, some h) ∷ rest) o (r, rs) v room₁ room₂ =
      let bytes = bytes_of std format h in
      let both = length-append bytes (all_bytes std format rest) in
      let d = process_frame-IsDelivered format o m h r v (omega arith) (omega (arith, both)) in
      let d' =
        process_loop-IsDelivered format rest (process_frame std o (m, some h)) rs d.ready
          (ground (arith, d.frames_written)) (omega (arith, both, d.bytes_written)) in
      IsDelivered-trans d d'
