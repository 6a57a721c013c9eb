-- ===== src/Proc/Signal.antt =====
-- Custom signals: `sys_signal`, `sys_sigreturn` and `send_sigcustom` of xv6-public_2/proc.c, and
-- their delivery and the return by a page fault at the end of xv6-public_2/trap.c.
use col.Base.{
  ap, ◌∙◌, Bool, Option, arith, false, if◌then◌else◌, none, not, refl, some, true, ℕ, ◌%◌, ◌&&◌,
  ◌+◌, ◌-◌, ◌==◌, ◌^◌, ◌≡◌, ◌≢◌,
}
use col.Proc.{Trapframe, Proc}

abbrev pub magic_sigret : ℕ
magic_sigret = 0xDEADBEEF

-- `argptr` has found the handler's address, or failed; the answer is 0 or -1.
unfoldable pub signal : Option ℕ → Proc → Proc × Bool
signal none p = (p, false)
signal (some handler) p = (record p { signal_handler = handler }, true)

unfoldable pub send_sigcustom : Proc → Proc
send_sigcustom p = record p { pending_signal = true }

abbrev pub restore : Trapframe → Proc → Proc
restore tf p = record p { tf = tf; saved_tf = none }

abbrev pub sigreturn_with : Option Trapframe → Proc → Proc × Bool
sigreturn_with none p = (p, false)
sigreturn_with (some tf) p = (restore tf p, true)

unfoldable pub sigreturn : Proc → Proc × Bool
sigreturn p = sigreturn_with p.saved_tf p

-- A page fault: the return of a handler, or the end of the process.
abbrev pub fault_with : Option Trapframe → ℕ → Proc → Proc
fault_with none addr p = record p { killed = true }
fault_with (some tf) addr p =
    if addr == magic_sigret then restore tf p else record p { killed = true }

unfoldable pub page_fault : ℕ → Proc → Proc
page_fault addr p = fault_with p.saved_tf addr p

-- `esp` after a push of one word.
abbrev pub pushed : ℕ → ℕ
pushed esp = (esp + 2 ^ 32 - 4) % 2 ^ 32

-- The frame in which the handler starts.
abbrev pub enter : ℕ → Trapframe → Trapframe
enter handler tf = record tf { esp = pushed tf.esp; eip = handler }

-- The last step of `trap`. `page` says whether `kalloc` has a page for the saved frame. The second
-- part is the word that `copyout` is to put on the user stack, and where.
unfoldable pub deliver : Bool → Proc → Proc × Option (ℕ × ℕ)
deliver page p =
    if p.pending_signal && not (p.signal_handler == 0)
    then (
      record p {
        saved_tf = if page then some p.tf else none;
        tf = enter p.signal_handler p.tf;
        pending_signal = false;
      },
      some (pushed p.tf.esp, magic_sigret),
    )
    else (p, none)

-- The word that `syscall` stores as the answer: 0, or -1.
abbrev pub answer_word : Bool → ℕ
answer_word ok = if ok then 0 else 2 ^ 32 - 1

-- `syscall` at the number of `sys_sigreturn`: what the call answers goes to `eax` of the frame that it
-- has put back.
unfoldable pub sigreturn_call : Proc → Proc
sigreturn_call p =
    let (q, ok) = sigreturn p in record q { tf = record q.tf { eax = answer_word ok } }

-- `trap` on a page fault at `addr`, to its end; `none` is the exit of a process that is killed.
unfoldable pub fault_trap : (page : Bool) → (addr : ℕ) → Proc → Option (Proc × Option (ℕ × ℕ))
fault_trap page addr p =
    let q = page_fault addr p in if q.killed then none else some (deliver page q)

-- What may happen to a process that runs, with no signal delivered: its code changes the registers and
-- calls `sys_signal`, and signals come.
pub data Runs (p : Proc) : Proc → Type 0 where
  here : Runs p p
  computes : {q : Proc} (regs : Trapframe) → Runs p q → Runs p (record q { tf = regs })
  registers : {q : Proc} (arg : Option ℕ) → Runs p q → Runs p (signal arg q).0
  signalled : {q : Proc} → Runs p q → Runs p (send_sigcustom q)

-- The saved frame and the kill mark stay.
Runs-keeps : {p q : Proc} → Runs p q → (q.saved_tf ≡ p.saved_tf) × (q.killed ≡ p.killed)
unfolding signal send_sigcustom
Runs-keeps here = (refl, refl)
Runs-keeps (computes regs r) = Runs-keeps r
Runs-keeps (registers none r) = Runs-keeps r
Runs-keeps (registers (some h) r) = Runs-keeps r
Runs-keeps (signalled r) = Runs-keeps r

-- The process when the handler starts.
abbrev entered : Proc → Proc
entered p = record p {
  saved_tf = some p.tf;
  tf = enter p.signal_handler p.tf;
  pending_signal = false;
}

delivered :
    (p : Proc)
    → p.pending_signal ≡ true
    → p.signal_handler ≢ 0
    → deliver true p ≡ (entered p, some (pushed p.tf.esp, magic_sigret))
unfolding deliver
delivered p pending handler = ground arith

-- What the handler's process has saved, and its kill mark.
delivered-keeps :
    (p q : Proc)
    → p.pending_signal ≡ true
    → p.signal_handler ≢ 0
    → Runs (deliver true p).0 q
    → (q.saved_tf ≡ some p.tf) × (q.killed ≡ p.killed)
delivered-keeps p q pending handler runs =
    let (s, k) = Runs-keeps runs in
    let d = delivered p pending handler in
    (
      s ∙ ap (λ (x : Proc × Option (ℕ × ℕ)). x.0.saved_tf) d,
      k ∙ ap (λ (x : Proc × Option (ℕ × ℕ)). x.0.killed) d,
    )

fault_with-some :
    (q : Proc) (tf : Trapframe) → q.saved_tf ≡ some tf → page_fault magic_sigret q ≡ restore tf q
unfolding page_fault
fault_with-some q tf e = rw e refl

fault_with-none : (q : Proc) → q.saved_tf ≡ none → (page_fault magic_sigret q).killed ≡ true
unfolding page_fault
fault_with-none q e = rw e refl

-- The process `q` of the handler, back with the registers `regs`: nothing else has changed, but that no
-- frame is saved.
abbrev pub IsResumed : Trapframe → Proc → Proc → Type 0
IsResumed regs q back = back ≡ record q { tf = regs; saved_tf = none }

-- Of a process that is not killed: a second signal, delivered while the handler of a first one runs,
-- `kalloc` having a page each time, overwrites the saved frame. When no third one is pending, the return
-- from the second handler by the magic address goes back into the first handler, with the registers `q.tf`
-- that it had; but if that one then returns in the same way, with no other signal delivered, its page
-- fault ends the process, though it still was not killed.
pub deliver_nested :
    (p q r t : Proc) (page : Bool)
    → p.killed ≡ false
    → p.pending_signal ≡ true
    → p.signal_handler ≢ 0
    → Runs (deliver true p).0 q
    → q.pending_signal ≡ true
    → q.signal_handler ≢ 0
    → Runs (deliver true q).0 r
    → r.pending_signal ≡ false
    → Runs (page_fault magic_sigret r) t
    → (fault_trap page magic_sigret r ≡ some (page_fault magic_sigret r, none))
      × ((page_fault magic_sigret r).tf ≡ q.tf)
      × (t.killed ≡ false)
      × (fault_trap page magic_sigret t ≡ none)
unfolding fault_trap deliver
deliver_nested p q r t page alive pending handler first again handler' second quiet last =
    let (_, k1) = delivered-keeps p q pending handler first in
    let (saved, k2) = delivered-keeps q r again handler' second in
    let (gone, k3) = Runs-keeps last in
    let back = fault_with-some r q.tf saved in
    let empty : t.saved_tf ≡ none = gone ∙ ap (λ (x : Proc). x.saved_tf) back in
    let r_alive : r.killed ≡ false = k2 ∙ k1 ∙ alive in
    let t_alive : t.killed ≡ false = k3 ∙ ap (λ (x : Proc). x.killed) back ∙ r_alive in
    (
      rw (back, r_alive, quiet) refl,
      ap (λ (x : Proc). x.tf) back,
      t_alive,
      rw (fault_with-none t empty) refl,
    )
