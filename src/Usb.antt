-- ===== src/Usb.antt =====
-- The USB side of the firmware, on core 0: firmware/src/usb. This file has the capacities of
-- firmware/src/config/capacity_config.h and the records that the parts of the USB side exchange.
pub mod Hid
pub mod Cdc
use pico_uart.Prelude.{Bool, ℕ}

-- `PICO_UART_USB_CDC_TX_BUFFER_SIZE`, `PICO_UART_USB_CDC_RX_BUFFER_SIZE`
abbrev pub cdc_tx_buffer_size : ℕ
cdc_tx_buffer_size = 2048

abbrev pub cdc_rx_buffer_size : ℕ
cdc_rx_buffer_size = 2048

-- `PICO_UART_USB_CDC_BRIDGE_PASS_BUDGET`
abbrev pub bridge_pass_budget : ℕ
bridge_pass_budget = 1024

-- `PICO_UART_USB_HID_ENDPOINT_BUFFER_SIZE`
abbrev pub hid_endpoint_buffer_size : ℕ
hid_endpoint_buffer_size = 64

-- `PICO_UART_HW_UART_TX_BUFFER_SIZE`, `PICO_UART_HW_UART_RX_BUFFER_SIZE`
abbrev pub uart_tx_buffer_size : ℕ
uart_tx_buffer_size = 4096

abbrev pub uart_rx_buffer_size : ℕ
uart_rx_buffer_size = 4096

-- `uart_driver_port_stats_t`
pub record PortStats : Type 0 where
  pub uart_tx_bytes : ℕ
  pub uart_rx_bytes : ℕ
  pub tx_ring_high_watermark : ℕ
  pub rx_ring_high_watermark : ℕ
  pub tx_ring_overflow_count : ℕ
  pub rx_ring_overflow_count : ℕ
  pub rx_ring_pending_overflow_count : ℕ
  pub rx_error_count : ℕ

-- `usb_cdc_port_stats_t`
pub record CdcStats : Type 0 where
  pub opened : Bool
  pub tx_bytes : ℕ
  pub rx_bytes : ℕ
  pub rx_fifo_high_watermark : ℕ
  pub tx_fifo_high_watermark : ℕ
