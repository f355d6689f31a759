-- ===== src/Xid.antt =====
-- crates/lss-core/src/xid.rs: a GPU error report of the kernel log, and its operator hint.
use lss.Base.{ℕ, String, [], ◌∷◌, Option, none, some, concat, show_ℕ, ◌==◌, ◌||◌, if◌then◌else◌}

pub record XidEvent : Type 0 where
  pub ts : ℕ
  pub pci : String
  pub xid : ℕ
  pub gpu : Option ℕ
  pub detail : String

label : Option ℕ → String → String
label (some i) pci = concat ("GPU" ∷ show_ℕ i ∷ [])
label none pci = concat ("PCI " ∷ pci ∷ [])

unfoldable pub gpu_label : XidEvent → String
unfolding label
gpu_label x = label x.gpu x.pci

unfoldable pub xid_hint : ℕ → String
xid_hint n =
    if n == 8
    then "GPU stopped processing (hang / watchdog)"
    else if n == 13
    then "graphics engine exception"
    else if n == 31
    then "GPU memory page fault"
    else if n == 43
    then "GPU stopped processing"
    else if n == 45
    then "preemptive cleanup, channel torn down"
    else if n == 48
    then "double-bit ECC error"
    else if n == 61 || n == 62
    then "internal micro-controller halt"
    else if n == 63 || n == 64
    then "ECC page retirement / row remap"
    else if n == 74
    then "NVLink error"
    else if n == 79
    then "GPU has fallen off the bus"
    else if n == 94 || n == 95
    then "contained / uncontained ECC error"
    else if n == 119 || n == 120
    then "GSP RPC timeout / GSP error"
    else if n == 154
    then "GPU recovery action changed (reset / reboot required)"
    else "see NVIDIA Xid catalogue"
