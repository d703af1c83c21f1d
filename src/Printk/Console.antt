-- ===== src/Printk/Console.antt =====
-- The console: the port that `KPUTC` writes to, set up and prompt.
use flux_kernel.Prelude.{
  zero, suc, refl, ap, sym, subst, bit_and, ◌==◌, ◌<◌, ℕ, ◌≡◌, some, List, [], ◌∷◌, map, get_elem?,
  ◌∙◌, arith,
}
use flux_kernel.Words.{u8}
use flux_kernel.Machine.{PortEvent, read, ComPort, Machine}
use flux_kernel.Serial.Offset
use flux_kernel.Serial.Console.{polled, wire, accepts}
use flux_kernel.Serial.{line_stat_thre}
use flux_kernel.Serial.{com_send}
use flux_kernel.Serial.Console.{IsPrompt, traffic, Prints, Prints-pure, Prints->>, com_send-Prints}
use flux_kernel.Printk.{kputc, kputs}

pub record IsConsole (m : Machine) (port : ComPort) : Type 0 where
  pub index : ℕ
  pub primary : m.primary_com_port ≡ some index
  pub found : get_elem? m.com_ports index ≡ some port
  pub prompt : IsPrompt m port

-- A console is one on every machine with the same ports, device and patience.
polled-same :
    (m m' : Machine) (port : ComPort)
    → m'.device ≡ m.device
    → (k : ℕ) (log : List PortEvent) → polled m' port k log ≡ polled m port k log
unfolding polled
polled-same m m' port device zero log = refl
polled-same m m' port device (suc k) log =
    polled-same m m' port device k _
    ∙ ap
        (λ d.
          polled m port k
            (read (wire port Offset.line_stat) (u8 (d log (wire port Offset.line_stat))) ∷ log))
        device

pub IsPrompt-same :
    (m m' : Machine) (port : ComPort)
    → m'.device ≡ m.device
    → m'.patience ≡ m.patience
    → IsPrompt m port
    → IsPrompt m' port
IsPrompt-same m m' port device patience prompt = record {
  ready = prompt.ready;
  prompt = λ log.
      let (k, enough, free) = prompt.prompt log in
      let same =
        ap
          (λ d.
            bit_and (u8 (d (polled m' port k log) (wire port Offset.line_stat))) line_stat_thre
            == 0)
          device
        ∙ ap (accepts m port) (polled-same m m' port device k log) in
      (k, subst (λ n. k < n) (sym patience) enough, same ∙ free);
}

pub IsConsole-same :
    (m m' : Machine) (port : ComPort)
    → m'.primary_com_port ≡ m.primary_com_port
    → m'.com_ports ≡ m.com_ports
    → m'.device ≡ m.device
    → m'.patience ≡ m.patience
    → IsConsole m port
    → IsConsole m' port
IsConsole-same m m' port primary ports device patience console = record {
  index = console.index;
  primary = primary ∙ console.primary;
  found = ap (λ ps. get_elem? ps console.index) ports ∙ console.found;
  prompt = IsPrompt-same m m' port device patience console.prompt;
}

kputc-com_send :
    (c i : ℕ) (port : ComPort) (m : Machine)
    → m.primary_com_port ≡ some i
    → get_elem? m.com_ports i ≡ some port
    → kputc c m ≡ com_send port c m
unfolding kputc
kputc-com_send c i port m e f = ground arith

module _ {m : Machine} {port : ComPort} (console : IsConsole m port) where
  pub kputc-Prints : (c : ℕ) → Prints m port (kputc c) (u8 c ∷ [])
  kputc-Prints c log =
      let (log', e, s) = com_send-Prints console.prompt c log in
      (log', kputc-com_send c _ port (traffic m log) console.primary console.found ∙ e, s)

  pub kputs-Prints : (s : List ℕ) → Prints m port (kputs s) (map u8 s)
  unfolding kputs
  kputs-Prints [] = Prints-pure m port
  kputs-Prints (c ∷ s) =
      Prints->> m port (kputc c) (kputs s) (u8 c ∷ []) (map u8 s) (kputc-Prints c) (kputs-Prints s)
