-- ===== src/Frame/Output/Delivery.antt =====
-- What one delivery of bytes does to the file and the clients, while no write fails.
pub mod Loop
use Prim.Native.String.{String}
use mathlib.Core.List.{append_assoc, append-nil}
use thermal_recovery_flow.Base.{
  ℕ, suc, ◌+◌, ◌^◌, ◌<◌, ◌≡◌, refl, sym, ap, Bool, true, false, not, ◌&&◌, Option, none, some, List,
  [], ◌∷◌, ◌++◌, map, arith, if◌then◌else◌, ltb, length, length-append, take, All, Result, ok, err,
}
use thermal_recovery_flow.Base.Float.{Float}
use thermal_recovery_flow.Driftflux.{HydrodynamicsFrame}
use thermal_recovery_flow.Frame.{
  OutputFormat, format_json, format_csv, format_binary, Formats, csv_record, serialize_binary,
  serialize_json,
}
use thermal_recovery_flow.Frame.Clients.{TcpClient, write_client}
use thermal_recovery_flow.Frame.Output.{
  FrameOutput, Moment, is_csv, write_to_file, broadcast_from, broadcast_to_tcp_clients,
  serialize_csv, serialize_frame, deliver, process_frame, process_loop,
}

-- Every write succeeds at this moment.
pub record IsReliable {E : Type 0} (m : Moment E) : Type 0 where
  pub csv : m.csv_write ≡ none
  pub file : (bytes : List ℕ) → m.file_write bytes ≡ record { count = length bytes; error = none }
  pub clients : (i : ℕ) → m.client_fails i ≡ false

-- The file is open, and so is the CSV writer if the format asks for one.
pub record IsReady (format : OutputFormat) (o : FrameOutput) : Type 0 where
  pub is_format : o.config.format ≡ format
  pub file : o.file_writer ≡ true
  pub file_open : o.file_closed ≡ false
  pub csv : o.csv_writer ≡ is_csv format

-- A client as it is seen from outside: whether frames go to it, and what it has received.
abbrev pub audience : TcpClient → Bool × List ℕ
audience c = (c.registered && not c.closed, c.received)

abbrev pub hears : List ℕ → Bool × List ℕ → Bool × List ℕ
hears bytes (listens, received) = (listens, if listens then received ++ bytes else received)

abbrev pub audiences : FrameOutput → List (Bool × List ℕ)
audiences o = map audience o.registry.tcp_clients

-- From `o` to `o'` the file and every client that listens have got `bytes`, in `frames` pieces, and the
-- CSV writer `rows`.
pub record IsDelivered (format : OutputFormat) (o o' : FrameOutput) (frames : ℕ) (bytes : List ℕ)
    (rows : List (List String)) : Type 0 where
  pub file : o'.file_data ≡ o.file_data ++ bytes
  pub csv : o'.csv_rows ≡ o.csv_rows ++ rows
  pub frames_written : o'.frames_written ≡ o.frames_written + frames
  pub bytes_written : o'.bytes_written ≡ o.bytes_written + length bytes
  pub clients : audiences o' ≡ map (hears bytes) (audiences o)
  pub ready : IsReady format o'

hears-append :
    (xs ys : List ℕ) (cs : List (Bool × List ℕ))
    → map (hears ys) (map (hears xs) cs) ≡ map (hears (xs ++ ys)) cs
hears-append xs ys [] = refl
hears-append xs ys ((true, c) ∷ cs) = λ i. (true, append_assoc c xs ys i) ∷ hears-append xs ys cs i
hears-append xs ys ((false, c) ∷ cs) = ap (◌∷◌ (false, c)) (hears-append xs ys cs)

pub hears-nil : (cs : List (Bool × List ℕ)) → map (hears []) cs ≡ cs
hears-nil [] = refl
hears-nil ((true, c) ∷ cs) = λ i. (true, append-nil c i) ∷ hears-nil cs i
hears-nil ((false, c) ∷ cs) = ap (◌∷◌ (false, c)) (hears-nil cs)

module _ {format : OutputFormat} where
  pub nothing-IsDelivered : (o : FrameOutput) → IsReady format o → IsDelivered format o o 0 [] []
  nothing-IsDelivered o v = record {
    file = sym (append-nil o.file_data);
    csv = sym (append-nil o.csv_rows);
    frames_written = omega arith;
    bytes_written = omega arith;
    clients = sym (hears-nil (audiences o));
    ready = v;
  }

  module _ {o₁ o₂ o₃ : FrameOutput} {m n : ℕ} {xs ys : List ℕ}
      {rows rows' : List (List String)} where
    pub IsDelivered-trans :
        IsDelivered format o₁ o₂ m xs rows
        → IsDelivered format o₂ o₃ n ys rows'
        → IsDelivered format o₁ o₃ (m + n) (xs ++ ys) (rows ++ rows')
    IsDelivered-trans d e = record {
      file = rw (e.file, d.file) (append_assoc o₁.file_data xs ys);
      csv = rw (e.csv, d.csv) (append_assoc o₁.csv_rows rows rows');
      frames_written = omega (arith, d.frames_written, e.frames_written);
      bytes_written = omega (arith, d.bytes_written, e.bytes_written, length-append xs ys);
      clients = rw (e.clients, d.clients) (hears-append xs ys (audiences o₁));
      ready = e.ready;
    }

module _ {E : Type 0} (m : Moment E) (r : IsReliable m) where
  broadcast_from-hears :
      (bytes : List ℕ) (i : ℕ) (cs : List TcpClient)
      → map audience (broadcast_from m bytes i cs).0 ≡ map (hears bytes) (map audience cs)
  unfolding broadcast_from write_client
  broadcast_from-hears bytes i [] = refl
  broadcast_from-hears bytes i (c ∷ cs) =
      ground (arith, r.clients i, broadcast_from-hears bytes (suc i) cs)

  take_all : (xs : List ℕ) → take (length xs) xs ≡ xs
  take_all [] = refl
  take_all (x ∷ xs) = ap (◌∷◌ x) (take_all xs)

  deliver_bytes :
      (format : OutputFormat) (o : FrameOutput) (b : ℕ) (bytes : List ℕ)
      → IsReady format o
      → o.frames_written + 1 < 2 ^ 64
      → o.bytes_written + length (b ∷ bytes) < 2 ^ 64
      → deliver (o, ok (b ∷ bytes)) m ≡ record o {
        file_data = o.file_data ++ b ∷ bytes;
        frames_written = o.frames_written + 1;
        bytes_written = o.bytes_written + length (b ∷ bytes);
        registry = broadcast_to_tcp_clients o.registry m (b ∷ bytes);
      }
  unfolding deliver write_to_file
  deliver_bytes format o b bytes v room₁ room₂ = ground (arith, r.file (b ∷ bytes), take_all bytes)

  pub deliver_nothing : (o : FrameOutput) → deliver (o, ok []) m ≡ o
  unfolding deliver broadcast_to_tcp_clients
  deliver_nothing o = refl

  pub deliver-IsDelivered :
      (format : OutputFormat) (o : FrameOutput) (bytes : List ℕ)
      → IsReady format o
      → o.frames_written + 1 < 2 ^ 64
      → o.bytes_written + length bytes < 2 ^ 64
      → IsDelivered format o
          (deliver (o, ok bytes) m)
          (if ltb 0 (length bytes) then 1 else 0)
          bytes
          []
  unfolding broadcast_to_tcp_clients
  deliver-IsDelivered format o [] v room₁ room₂ = rw (deliver_nothing o) (nothing-IsDelivered o v)
  deliver-IsDelivered format o (b ∷ bytes) v room₁ room₂ =
      rw (deliver_bytes format o b bytes v room₁ room₂) (record {
        file = refl;
        csv = sym (append-nil o.csv_rows);
        frames_written = ground arith;
        bytes_written = refl;
        clients = broadcast_from-hears (b ∷ bytes) 0 o.registry.tcp_clients;
        ready = ground arith;
      })
