-- ===== src/Usb/Hid/Reports.antt =====
-- The bytes of the reports: `usb_hid_build_static_reports`, `usb_hid_build_telemetry`,
-- `usb_hid_build_channel` and `usb_hid_build_diagnostic` of firmware/src/usb/usb_hid.c. A builder
-- gives the payload's bytes in the order of their offsets.
pub mod Decode
use pico_uart.Control.Flags.{
  status_control_pending, status_ready, has, status_control_error, status_init_failed,
}
use pico_uart.Plane.{is_pio}
use pico_uart.Platform.BootConfig.{profile_supported}
use pico_uart.Runtime.{port_count, PortInfo, ControlError}
use pico_uart.Prelude.{
  is_some, sub64, ltb, ◌&&◌, u16, ◌!=◌, zero, ◌||◌, bit_and, true, ◌==◌, ◌*◌, ◌%◌, some, leb,
  get_or, u32, [], ◌-◌, not, ◌/◌, ◌+◌, suc, ◌++◌, u8, ◌∷◌, false, if◌then◌else◌, none, ℕ, List,
  Bool, Option,
}
use pico_uart.Usb.{uart_tx_buffer_size, uart_rx_buffer_size, cdc_tx_buffer_size, cdc_rx_buffer_size}
use pico_uart.Usb.Hid.{
  Channel, Measurement, unavailable, current, cached, measurement_code, is_unavailable,
}
use pico_uart.Runtime.{
  no_error, baud_error, framing_error, backend_error, timeout_error, other_error,
}
use pico_uart.Usb.Hid.Command.{report_version}

unfoldable pub write_u16 : ℕ → List ℕ
write_u16 value = u8 value ∷ u8 (value / 0x100) ∷ []

unfoldable pub write_u32 : ℕ → List ℕ
write_u32 value =
    u8 value ∷ u8 (value / 0x100) ∷ u8 (value / 0x1_0000) ∷ u8 (value / 0x100_0000) ∷ []

-- The loop of the telemetry over the eight bytes of the uptime.
unfoldable pub write_u64 : ℕ → List ℕ
write_u64 value = write_u32 value ++ write_u32 (value / 0x1_0000_0000)

-- `uart_driver_control_error_t` as a number
abbrev pub reason_code : ControlError → ℕ
reason_code no_error = 0
reason_code baud_error = 1
reason_code framing_error = 2
reason_code backend_error = 3
reason_code timeout_error = 4
reason_code other_error = 5

-- The channel's state: closed, faulted, starting, changing or running.
unfoldable pub channel_state : Bool → ℕ → ℕ
channel_state opened status =
    if not opened
    then 0
    else if bit_and status (status_init_failed + status_control_error) != 0
    then 4
    else if not (has status status_ready)
    then 1
    else if has status status_control_pending
    then 3
    else 2

unfoldable pub all_u32 : List ℕ → List ℕ
all_u32 [] = []
all_u32 (value ∷ values) = write_u32 (u32 value) ++ all_u32 values

unfoldable pub all_u16 : List ℕ → List ℕ
all_u16 [] = []
all_u16 (value ∷ values) = write_u16 value ++ all_u16 values

-- `snapshot` is what `uart_driver_port_snapshot` gives.
unfoldable pub build_channel : Option (PortInfo × ℕ) → Bool → ℕ → Channel → Option (List ℕ)
build_channel none publication now_ms channel = none
build_channel (some (info, status)) publication now_ms channel =
    let c = info.line_coding in
    let elapsed = sub64 now_ms channel.last_publication_ms in
    some (
      report_version
        ∷ channel_state channel.cdc.opened status
        ∷ measurement_code channel.measurement
        ∷ write_u32 c.baud_rate
      ++ (if c.baud_rate != 0 then c.data_bits else 0)
        ∷ (if c.baud_rate != 0 then c.stop_bits else 0)
        ∷ (if c.baud_rate != 0 then u8 c.parity else 0)
        ∷ write_u16 (u16 (channel.sequence + (if publication then 1 else 0)))
      ++ write_u16 (if ltb 0xffff elapsed then 0xffff else elapsed)
      ++ all_u32 channel.total)

unfoldable pub sample_age : ℕ → Channel → ℕ
sample_age now_us channel =
    let age = sub64 now_us channel.uart_sample_us / 100000 in
    if measurement_code channel.measurement == 1
    then 0
    else if is_unavailable channel.measurement || ltb 0xff age
    then 0xff
    else age

unfoldable pub build_diagnostic : ℕ → Channel → List ℕ
build_diagnostic now_us channel =
    report_version
      ∷ measurement_code channel.measurement
      ∷ sample_age now_us channel
      ∷ reason_code channel.control.reason
      ∷ write_u32 (get_or channel.rx_count 0 0)
    ++ write_u32 (get_or channel.rx_count 1 0)
    ++ write_u32 channel.last_fault_s
    ++ all_u16 channel.peaks

-- What the telemetry reads: the LED's state if it can be read, the temperature in hundredths of a
-- degree if it is finite (`temperature_to_hid_centidegrees`, as a `uint16_t`), the uptime, the two
-- service loads and the system clock.
pub record Telemetry : Type 0 where
  pub led : Option Bool
  pub temperature : Option ℕ
  pub uptime_us : ℕ
  pub load_0 : ℕ
  pub load_1 : ℕ
  pub clock : ℕ

abbrev pub led_is_on : Option Bool → Bool
led_is_on none = false
led_is_on (some on) = on

unfoldable pub build_telemetry : List ℕ → Telemetry → Option (List ℕ)
build_telemetry identity t = elim t.temperature [
  | none ↦ none
  | some centidegrees ↦
      if t.clock == 0 || (bit_and (get_or identity 17 0) 1 != 0 && not (is_some t.led))
      then none
      else some (
          report_version ∷ (if led_is_on t.led then 1 else 0) ∷ write_u16 centidegrees
          ++ write_u64 (t.uptime_us / 1000)
          ++ write_u16 t.load_0
          ++ write_u16 t.load_1
          ++ write_u32 t.clock)
]

-- What the two static reports are built from: the board's identity, the version, the model, whether
-- the LED can be read, the build's reset option, the sizes of the memory, the cause of the reset, the
-- stored profile and the board's ports.
pub record Board : Type 0 where
  pub uid : List ℕ
  pub version_major : ℕ
  pub version_minor : ℕ
  pub version_patch : ℕ
  pub rp2350 : Bool
  pub model : ℕ
  pub led_readable : Bool
  pub allow_reset : Bool
  pub ram_size : ℕ
  pub ram_reserved : ℕ
  pub reset_cause : ℕ
  pub stored_profile : ℕ
  pub ports : List PortInfo

-- `identity[16]`, from the bit of the first port on
unfoldable pub hw_mask : ℕ → List PortInfo → ℕ
hw_mask bit [] = 0
hw_mask bit (port ∷ ports) = (if is_pio port.backend then 0 else bit) + hw_mask (bit * 2) ports

-- `identity[18]`, the profiles 0 to 4
unfoldable pub profile_mask : ℕ → ℕ → ℕ → ℕ
profile_mask bit profile zero = 0
profile_mask bit profile (suc n) =
    (if profile_supported profile then bit else 0) + profile_mask (bit * 2) (profile + 1) n

unfoldable pub pin_byte : ℕ → ℕ
pin_byte pin = if leb pin 0xff then pin else 0xff

unfoldable pub pin_map : List PortInfo → List ℕ
pin_map [] = []
pin_map (port ∷ ports) =
    pin_byte port.tx_pin
    ∷ pin_byte port.rx_pin
    ∷ pin_byte port.rts_pin
    ∷ pin_byte port.cts_pin
    ∷ pin_map ports

-- `identity[17]`
unfoldable pub capabilities : Board → ℕ
capabilities b = (if b.led_readable then 1 else 0) + (if b.allow_reset then 2 else 0) + 4

unfoldable pub build_identity : Board → List ℕ
build_identity b =
    report_version ∷ write_u16 1
    ++ b.uid
    ++ b.version_major
      ∷ b.version_minor
      ∷ b.version_patch
      ∷ (if b.rp2350 then 2 else 1)
      ∷ b.model
      ∷ hw_mask 1 b.ports
      ∷ capabilities b
      ∷ profile_mask 1 0 5
      ∷ write_u32 b.ram_size
    ++ write_u32 b.ram_reserved

unfoldable pub build_configuration : Board → List ℕ
build_configuration b =
    report_version
      ∷ (if leb b.stored_profile 4 then b.stored_profile else 0xff)
      ∷ port_count
      ∷ pin_map b.ports
    ++ b.reset_cause ∷ write_u16 uart_tx_buffer_size
    ++ write_u16 uart_rx_buffer_size
    ++ write_u16 cdc_tx_buffer_size
    ++ write_u16 cdc_rx_buffer_size
