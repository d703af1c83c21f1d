-- ===== src/Serial/Line.antt =====
-- Reading a line from a port: the characters up to a delimiter.
use flux_kernel.Prelude.{
  ℕ, zero, suc, Bool, ◌+◌, ◌<◌, ◌≡◌, ◌≢◌, refl, true, false, List, [], ◌∷◌, ◌++◌, length, arith, ap,
  ◌∙◌, sym, ◌==◌, ==_refl, ==_false, if◌then◌else◌,
}
use flux_kernel.Words.{u8}
use flux_kernel.Machine.{
  ComPort, PortEvent, wrote, read, Machine, ok, Kernel, pure, ◌>>=◌, waiting, and_then,
}
use flux_kernel.Serial.{com_port_status_ready, line_stat_dr, inb, can_read, com_read, com_reads}
use flux_kernel.Serial.Console.{wire, line_status, polled, traffic, unset, Polls, wait_until-polled}
use flux_kernel.Serial.Console.{sent, sent-polled}
use flux_kernel.Serial.Offset

-- The bytes read from the I/O port `p`, the oldest first.
unfoldable pub received : ℕ → List PortEvent → List ℕ
received p [] = []
received p (read q val ∷ log) = if q == p then received p log ++ val ∷ [] else received p log
received p (wrote q val ∷ log) = received p log

received_other :
    (p q val : ℕ) (log : List PortEvent) → q ≢ p → received p (read q val ∷ log) ≡ received p log
unfolding received
received_other p q val log ne = rw (==_false q p ne) refl

received_self :
    (p val : ℕ) (log : List PortEvent) → received p (read p val ∷ log) ≡ received p log ++ val ∷ []
unfolding received
received_self p val log = rw (==_refl p) refl

-- The port is ready, its device has a character within the patience after any traffic, and the
-- characters that it hands out are those of `stream`.
pub record IsSupplied (m : Machine) (port : ComPort) (stream : ℕ → ℕ) : Type 0 where
  pub ready : port.status ≡ com_port_status_ready
  pub supply :
      (log : List PortEvent)
      → (k : ℕ) × (k < m.patience) × (unset m port line_stat_dr (polled m port k log) ≡ false)
  pub answers :
      (log : List PortEvent)
      → u8 (m.device log (wire port Offset.io_data))
        ≡ stream (length (received (wire port Offset.io_data) log))

-- From position `n` on, `stream` has the characters of `s` and then the delimiter for the first
-- time.
abbrev pub HasLine : (ℕ → ℕ) → ℕ → ℕ → List ℕ → Type 0
HasLine stream delim n [] = stream n ≡ delim
HasLine stream delim n (c ∷ s) = (stream n ≡ c) × (c ≢ delim) × HasLine stream delim (n + 1) s

module _ (m : Machine) (port : ComPort) where
  wire_ne : wire port Offset.line_stat ≢ wire port Offset.io_data
  wire_ne e = omega arith

  -- Polls read no character.
  received-polled :
      (k : ℕ) (log : List PortEvent)
      → received (wire port Offset.io_data) (polled m port k log)
        ≡ received (wire port Offset.io_data) log
  unfolding polled
  received-polled zero log = refl
  received-polled (suc k) log =
      received-polled k _ ∙ received_other _ _ (line_status m port log) log wire_ne

  can_read-Polls : Polls m port (can_read port) line_stat_dr
  unfolding can_read inb
  can_read-Polls log = refl

-- What follows a character, by whether it is the delimiter.
abbrev choose : ℕ → ComPort → ℕ → ℕ → Bool → Kernel (List ℕ)
choose rounds port delim c b = elim b [
  | true ↦ pure []
  | false ↦ do rest ← com_reads rounds port delim; pure (c ∷ rest)
]

com_reads_step :
    (rounds : ℕ) (port : ComPort) (delim c : ℕ) (b : Bool) (m m₁ : Machine)
    → com_read port m ≡ ok c m₁
    → (c == delim) ≡ b
    → com_reads (suc rounds) port delim m ≡ choose rounds port delim c b m₁
unfolding com_reads
com_reads_step rounds port delim c b m m₁ run e =
    ap (λ r. and_then r (λ z. choose rounds port delim z (z == delim))) run
    ∙ ap (λ t. choose rounds port delim c t m₁) e

module _ {m : Machine} {port : ComPort} {stream : ℕ → ℕ} (supplied : IsSupplied m port stream) where
  abbrev pub count : List PortEvent → ℕ
  count log = length (received (wire port Offset.io_data) log)

  -- One character.
  pub com_read-stream :
      (log : List PortEvent)
      → (log' : List PortEvent) × (com_read port (traffic m log)
          ≡ ok (stream (count log)) (traffic m log'))
        × (received (wire port Offset.io_data) log'
            ≡ received (wire port Offset.io_data) log ++ stream (count log) ∷ [])
        × ((p : ℕ) → sent p log' ≡ sent p log)
  unfolding com_read inb received sent
  com_read-stream log =
      let (k, enough, there) = supplied.supply log in
      let (j, e) =
        wait_until-polled m port (can_read port) line_stat_dr m.patience k log
          (can_read-Polls m port) enough there in
      let log₁ = polled m port j log in
      let c = u8 (m.device log₁ (wire port Offset.io_data)) in
      let same : c ≡ stream (count log) =
        supplied.answers log₁ ∙ ap (λ z. stream (length z)) (received-polled m port j log) in
      rw (supplied.ready, e)
        (
          read (wire port Offset.io_data) c ∷ log₁,
          ap (λ z. ok z (traffic m (read (wire port Offset.io_data) c ∷ log₁))) same,
          received_self (wire port Offset.io_data) c log₁
              ∙ ap (λ z. z ++ c ∷ []) (received-polled m port j log)
              ∙ ap (λ z. received (wire port Offset.io_data) log ++ z ∷ []) same,
          λ p. sent-polled m port j p log,
        )

com_read_unready :
    (port : ComPort) (m : Machine) → port.status ≢ com_port_status_ready → com_read port m ≡ ok 0 m
unfolding com_read
com_read_unready port m broken = rw (==_false port.status com_port_status_ready broken) refl

-- On a port that is not ready, for a delimiter other than NUL, `com_reads` does not get to the end
-- of a line, whatever number of characters it may read.
pub com_reads_unready :
    (port : ComPort) (delim rounds : ℕ) (m : Machine)
    → port.status ≢ com_port_status_ready
    → delim ≢ 0
    → com_reads rounds port delim m ≡ waiting
unfolding com_reads
com_reads_unready port delim zero m broken ne = refl
com_reads_unready port delim (suc rounds) m broken ne =
    com_reads_step rounds port delim 0 false m m (com_read_unready port m broken)
      (==_false 0 delim (λ e. ne (sym e)))
    ∙ ap (λ r. and_then r (λ rest. pure (0 ∷ rest)))
        (com_reads_unready port delim rounds m broken ne)
