-- ===== src/Isr/Dispatched.antt =====
-- Where an interrupt of each source leads.
use caliptra_ss.Base.{Bool, true, false}
use caliptra_ss.Isr.Handler.{nonstd_veer_isr as veer_isr}
use caliptra_ss.Isr.Sources.{
  Source, qspi_error, qspi_notif, uart_error, uart_notif, i3c_error, i3c_notif,
}

-- The sources of blocks that have no handler laid down.
abbrev pub is_omitted : Source → Bool
is_omitted qspi_error = true
is_omitted qspi_notif = true
is_omitted uart_error = true
is_omitted uart_notif = true
is_omitted i3c_error = true
is_omitted i3c_notif = true
is_omitted _ = false
