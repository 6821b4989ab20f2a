-- ===== src/Modem/RxThread.antt =====
-- src/main.cpp: `rx_thread_fn`, which collects samples and lets the decoder try them. What the radio's `recv`
-- gives is an argument. `heard` are the samples since the buffer was last cleared, `offered` the payloads
-- that `try_push` is called with. Starting and stopping the stream is not modelled.
pub mod Window
use qpsk_b.Base.{
  ℕ, ◌+◌, ◌-◌, Option, none, some, List, [], ◌∷◌, ◌++◌, ltb, if◌then◌else◌, length, drop,
}
use qpsk_b.Base.Result.{Result, ok, ◌>>=◌}
use qpsk_b.Phy.Samples.{Samples}
use qpsk_b.Phy.Frame.{ReadFault}
use qpsk_b.Phy.Decoder.Chain.{Recovery, Decoder, decode, reset}

module _ (c : Samples) (recovery : Recovery c) where
  open c use {Sample}

  pub record RxThread : Type 0 where
    pub decoder : Decoder c recovery
    pub rx_buffer : List Sample
    pub samples_since_last_decode : ℕ
    pub heard : List Sample
    pub offered : List (List ℕ)

  unfoldable pub new_thread : Decoder c recovery → RxThread
  new_thread decoder = record {
    decoder = decoder;
    rx_buffer = [];
    samples_since_last_decode = 0;
    heard = [];
    offered = [];
  }

  -- What `recv` does: it throws, or returns samples.
  pub data Recv : Type 0 where
    failed : Recv
    batch : List Sample → Recv

  unfoldable pub trim : RxThread → RxThread
  trim t =
      let size = length t.rx_buffer in
      if ltb 262144 size then record t { rx_buffer = drop (size - 131072) t.rx_buffer } else t

  unfoldable pub take_payload : Option (List ℕ) → RxThread → RxThread
  take_payload none t = trim t
  take_payload (some []) t = trim t
  take_payload (some (byte ∷ bytes)) t = record t {
    offered = t.offered ++ ((byte ∷ bytes) ∷ []);
    rx_buffer = [];
    heard = [];
  }

  unfoldable pub try_decode : RxThread → Result ReadFault RxThread
  try_decode t = do
    (decoded, decoder) ← decode c recovery (reset c recovery t.decoder) t.rx_buffer
    ok (take_payload decoded (record t { decoder = decoder; samples_since_last_decode = 0 }))

  unfoldable pub append_samples : List Sample → RxThread → RxThread
  append_samples samples t = record t {
    rx_buffer = t.rx_buffer ++ samples;
    samples_since_last_decode = t.samples_since_last_decode + length samples;
    heard = t.heard ++ samples;
  }

  -- The body of the loop. A fault would end it.
  unfoldable pub rx_round : Recv → RxThread → Result ReadFault RxThread
  rx_round failed t = ok t
  rx_round (batch []) t = ok t
  rx_round (batch (s ∷ samples)) t =
      let t = append_samples (s ∷ samples) t in
      if ltb t.samples_since_last_decode 16384 then ok t else try_decode t

  unfoldable pub rx_rounds : List Recv → RxThread → Result ReadFault RxThread
  rx_rounds [] t = ok t
  rx_rounds (r ∷ rounds) t = do t ← rx_round r t; rx_rounds rounds t
