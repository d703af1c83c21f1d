-- ===== src/Serial/Console.antt =====
-- A port that is set up and whose device gets round to accepting characters, and the programs that
-- send known bytes through it.
use flux_kernel.Prelude.{ℕ, zero, suc, ◌<◌, ◌≡◌, refl, Bool, true, false, List, [], ◌∷◌, ◌++◌}
use flux_kernel.Prelude.{◌==◌, ==_refl, if◌then◌else◌, Bool-cases, inl, inr, arith, append-nil}
use flux_kernel.Prelude.{append_assoc, bit_and, map, ap, sym, ◌∙◌}
use flux_kernel.Words.{u8, u16}
use flux_kernel.Machine.{ComPort, PortEvent, wrote, read, Machine, ok, Kernel, pure, ◌>>◌}
use flux_kernel.Serial.{register, com_port_status_ready, line_stat_thre, inb, outb, can_send}
use flux_kernel.Serial.{wait_until, com_send, com_sends}
use flux_kernel.Serial.Offset

-- The bytes written to the I/O port `p`, the oldest first.
unfoldable pub sent : ℕ → List PortEvent → List ℕ
sent p [] = []
sent p (wrote q val ∷ log) = if q == p then sent p log ++ val ∷ [] else sent p log
sent p (read q val ∷ log) = sent p log

-- The bus address of a register.
abbrev pub wire : ComPort → ℕ → ℕ
wire port offset = u16 (register port offset)

-- What a read of the line status register answers, after the traffic `log`.
abbrev pub line_status : Machine → ComPort → List PortEvent → ℕ
line_status m port log = u8 (m.device log (wire port Offset.line_stat))

abbrev pub accepts : Machine → ComPort → List PortEvent → Bool
accepts m port log = bit_and (line_status m port log) line_stat_thre == 0

-- The traffic after `k` more reads of the line status.
unfoldable pub polled : Machine → ComPort → ℕ → List PortEvent → List PortEvent
polled m port zero log = log
polled m port (suc k) log =
    polled m port k (read (wire port Offset.line_stat) (line_status m port log) ∷ log)

-- The port is ready, and after any traffic its device accepts a character within the patience.
pub record IsPrompt (m : Machine) (port : ComPort) : Type 0 where
  pub ready : port.status ≡ com_port_status_ready
  pub prompt :
      (log : List PortEvent)
      → (k : ℕ) × (k < m.patience) × (accepts m port (polled m port k log) ≡ false)

-- The machine after other traffic on the ports.
abbrev pub traffic : Machine → List PortEvent → Machine
traffic m log = record m { port_log = log }

-- Started on `m`, whatever was sent before, `p` returns, has sent `bytes` to the data register of
-- `port`, and has changed nothing but the traffic.
abbrev pub Prints : Machine → ComPort → Kernel (Unit {0}) → List ℕ → Type 0
Prints m port p bytes =
    (log : List PortEvent)
    → (log' : List PortEvent) × (p (traffic m log) ≡ ok tt (traffic m log'))
      × (sent (wire port Offset.io_data) log' ≡ sent (wire port Offset.io_data) log ++ bytes)

-- One poll.
module _ (polls : ℕ) (ready : Kernel ℕ) (m m' : Machine) (r : ℕ) (e : ready m ≡ ok r m') where
  wait_until-busy : (r == 0) ≡ true → wait_until (suc polls) ready m ≡ wait_until polls ready m'
  unfolding wait_until
  wait_until-busy busy = ground arith

  wait_until-free : (r == 0) ≡ false → wait_until (suc polls) ready m ≡ ok tt m'
  unfolding wait_until
  wait_until-free free = ground arith

module _ (m : Machine) (port : ComPort) where
  pub Prints-pure : Prints m port (pure tt) []
  Prints-pure log = (log, refl, sym (append-nil _))

  pub Prints->> :
      (p q : Kernel (Unit {0})) (xs ys : List ℕ)
      → Prints m port p xs
      → Prints m port q ys
      → Prints m port (p >> q) (xs ++ ys)
  Prints->> p q xs ys h k log =
      let (log₁, e₁, s₁) = h log in
      let (log₂, e₂, s₂) = k log₁ in
      (log₂, rw e₁ e₂, (s₂ ∙ ap (λ t. t ++ ys) s₁ ∙ append_assoc _ xs ys))

  abbrev poll_more : List PortEvent → List PortEvent
  poll_more log = read (wire port Offset.line_stat) (line_status m port log) ∷ log

  -- `ready` reads the line status once, and tests the bits of `mask`.
  abbrev pub Polls : Kernel ℕ → ℕ → Type 0
  Polls ready mask =
      (log : List PortEvent)
      → ready (traffic m log)
        ≡ ok (bit_and (line_status m port log) mask) (traffic m (poll_more log))

  abbrev pub unset : ℕ → List PortEvent → Bool
  unset mask log = bit_and (line_status m port log) mask == 0

  -- A wait that ends in time reads the line status and does nothing else.
  pub wait_until-polled :
      (ready : Kernel ℕ) (mask polls k : ℕ) (log : List PortEvent)
      → Polls ready mask
      → k < polls
      → unset mask (polled m port k log) ≡ false
      → (j : ℕ) × (wait_until polls ready (traffic m log) ≡ ok tt (traffic m (polled m port j log)))
  unfolding polled
  wait_until-polled ready mask zero k log once h a = elim h [ ]
  wait_until-polled ready mask (suc polls) zero log once h a =
      (1, wait_until-free polls ready _ _ _ (once log) a)
  wait_until-polled ready mask (suc polls) (suc k) log once h a =
      elim (Bool-cases (unset mask log)) [
        | inl busy ↦
            let (j, e) =
              wait_until-polled ready mask polls k (poll_more log) once (omega arith) a in
            (suc j, wait_until-busy polls ready _ _ _ (once log) busy ∙ e)
        | inr free ↦ (1, wait_until-free polls ready _ _ _ (once log) free)
      ]

  can_send-Polls : Polls (can_send port) line_stat_thre
  unfolding can_send inb
  can_send-Polls log = refl

  -- Polls send nothing.
  pub sent-polled : (k p : ℕ) (log : List PortEvent) → sent p (polled m port k log) ≡ sent p log
  unfolding sent polled
  sent-polled zero p log = refl
  sent-polled (suc k) p log = sent-polled k p (poll_more log)

module _ {m : Machine} {port : ComPort} (prompt : IsPrompt m port) where
  pub com_send-Prints : (c : ℕ) → Prints m port (com_send port c) (u8 c ∷ [])
  unfolding com_send outb sent
  com_send-Prints c log =
      let (k, enough, free) = prompt.prompt log in
      let (j, e) =
        wait_until-polled m port (can_send port) line_stat_thre m.patience k log
          (can_send-Polls m port) enough free in
      rw (prompt.ready, e)
        (
          wrote (wire port Offset.io_data) (u8 c) ∷ polled m port j log,
          refl,
          rw (==_refl (wire port Offset.io_data))
              (ap (λ t. t ++ u8 c ∷ []) (sent-polled m port j (wire port Offset.io_data) log)),
        )

  -- Through a ready port whose device accepts characters in time, `com_sends` returns, having sent
  -- the bytes of the string in order, and nothing else has changed.
  pub com_sends-Prints : (s : List ℕ) → Prints m port (com_sends port s) (map u8 s)
  unfolding com_sends
  com_sends-Prints [] = Prints-pure m port
  com_sends-Prints (c ∷ s) =
      Prints->> m port (com_send port c) (com_sends port s) _ _ (com_send-Prints c)
        (com_sends-Prints s)
