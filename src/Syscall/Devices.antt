-- ===== src/Syscall/Devices.antt =====
-- The handlers of kernel/syscall_all.c over the console and the SD card, whose drivers are parameters.
use raspberry3_mos.Base.{ℕ, ◌%◌, Bool, leb, not, if◌then◌else◌}
use raspberry3_mos.Pmap.{kernbase}
use raspberry3_mos.Env.{Kernel}
use raspberry3_mos.Syscall.{Outcome, returns, panics, answer, minus, e_inval}

-- The character that `printcharc` gets, and the end of the handler
unfoldable pub sys_putchar : ℕ → Kernel → ℕ × Outcome
sys_putchar c k = (c % 256, returns k)

-- `c` is what `readcharc` returns.
unfoldable pub sys_getc : ℕ → Kernel → Outcome
sys_getc c k = answer c k

unfoldable pub sys_panic : ℕ → Kernel → Outcome
sys_panic msg k = panics

-- `envs` is the address of the array.
unfoldable pub sys_get_envs : ℕ → Kernel → Outcome
sys_get_envs envs k = answer envs k

module _ (sd_writeblock : ℕ → ℕ → Kernel → Bool)
    (sd_readblock : ℕ → ℕ → Kernel → Bool × Kernel) where
  unfoldable pub sys_write_sd : ℕ → ℕ → Kernel → Outcome
  sys_write_sd va secno k =
      if leb kernbase va
      then answer (minus e_inval) k
      else if not (sd_writeblock va secno k)
      then answer (minus e_inval) k
      else answer 0 k

  unfoldable pub sys_read_sd : ℕ → ℕ → Kernel → Outcome
  sys_read_sd va secno k =
      let (good, t) = sd_readblock secno va k in
      if leb kernbase va
      then answer (minus e_inval) k
      else if not good
      then answer (minus e_inval) t
      else answer 0 t
