-- ===== src/Lib.antt =====
-- PicoUart: a USB to UART bridge on the RP2040 and RP2350.
--
-- The program. Bytes go between USB CDC ports and UARTs through byte rings; core 1 drives the UART
-- backends (hardware UARTs and PIO programs, with DMA), core 0 serves USB, and a mailbox carries
-- changes of the line settings from one to the other. Boot settings live in the last flash sector.
--
-- The files, and the code under firmware/src that each one is about:
--   Prelude            C arithmetic, Boolean tests, arrays as lists (uart/saturating.h)
--   Ring               the byte ring (uart/ring_buffer/ring_buffer.c): Ring.antt has the counters
--                      and the spans, Ring/Transfer the copying calls and the self-check,
--                      Ring/Queue the bounded log that is the ring's contract
--   Bridge             moving bytes between the rings and USB (uart/bridge.c)
--   LineCoding         UART settings (uart/line_coding.c)
--   BaudRate           the PL011 divisor (uart/hw/baud_rate.h)
--   Policy             decisions of the backends (uart/backend/policy.h, uart/pio/txstall_wait.h)
--   DmaProgress        progress of the receive DMA (uart/dma/progress_math.h)
--   Control            the mailbox and its flags (uart/control/mailbox.c, uart/control/ownership.h)
--   Runtime            one UART port as the cores share it (uart/runtime.h, uart/uart_driver.h,
--                      uart/control/plane.h, uart/backend/backend.h): every part of it that the code
--                      keeps in arrays by port, and the record of a backend's operations
--   Plane              the control plane (uart/control/plane.c): Plane.antt has the ends of a
--                      request, Plane/Service the worker's side of it
--   Driver             the driver (uart/uart_driver.c): Driver.antt has core 0's calls on one port,
--                      Driver/Lifecycle the worker's starts and stops of a port, Driver/Start the
--                      start of the driver, Driver/Receive the receive side,
--                      Driver/Stats the statistics as core 0 reads them, Driver/Sweep the rounds over
--                      all ports, Driver/Starts which ports a start can bring up, Driver/Steady what
--                      the worker leaves alone, and Driver/Ownership the two cores on one port as a
--                      step relation
--   Usb                the USB side (usb/): Usb.antt has the capacities (config/capacity_config.h)
--                      and the statistics that the parts exchange
--   Usb/Hid            the HID reports (usb/usb_hid.c): Capture accounts for the counters, Reports
--                      builds the reports, Command takes the host's commands and saves the settings,
--                      Transfer has the GET and SET transfers, Poll the poll
--   Usb/Cdc            the CDC sessions (usb/usb_cdc.c, usb/cdc_soft_pending.h): Cdc.antt has one
--                      interface and the host's requests, Transfer the bytes, Session the admission
--                      and the poll of one interface, Poll all of them, Gate when bytes move, Window how
--                      long line settings wait, and Events and Closing the sessions that end
--   Claim              DMA channels and state machines (uart/hw/dma_claim.c,
--                      uart/pio/resource_claim.c)
--   Platform           boot settings (platform/boot_config.c) and the load of a service loop
--                      (platform/service_load.c)
--   Worker             the worker's sweep and heartbeat (uart/worker.c, uart/worker.h)
--
-- Conventions. A C function with prefix, such as `ring_buffer_write`, is a definition without it,
-- `write`. What it changes through a pointer, it returns. An enumeration that the code compares
-- with numbers is a number, others are data types. `uint32_t` and `uint64_t` arithmetic has its
-- remainder written out, and `size_t` has 32 bits. Arrays are lists; the null storage is the empty
-- list. Other pointers are taken as not null. SDK calls and callbacks are parameters, and a theorem
-- names what it needs of them.
--
-- Fuel. The loops of `write` and `read` take as many rounds as there are bytes to move, which is
-- enough because every round moves a byte or ends the loop. The loops of the bridge take their
-- rounds as an argument; with a capacity, as many as its bytes are enough. No other loop needs any:
-- they run over a list, or, as the sweeps over the six ports, a fixed number of times.
--
-- The two cores. A critical section of the code, under the status lock, is one update of a port.
-- The step relation of Driver/Ownership/Steps interleaves core 0's calls with the worker's
-- sections; what the worker reads and calls between two sections is its own, and belongs to the
-- later one, and two sections in a row are one step. So the section of
-- `uart_control_plane_service` that reads READY before a deferred request is one step with the
-- section that ends the request. The backends' state, their operations and the clock are parameters.
--
-- The USB side. The HID side reads the driver, the CDC side and the clock at one moment, which is the
-- record `Env`; the CDC side stands beside the driver's port that it serves, and calls the driver's
-- operations on it. A poll of an interface is one step on its port; the worker's steps come between,
-- and where a theorem names them, each body of a loop of the worker is one step.
-- TinyUSB, its FIFOs and its task are parameters, as are the SDK's flash calls.
--
-- Not modelled: the two cores' memory ordering (each call of the ring and each critical section is one
-- step), the driver's plain readers, what the readings of the statistics find while the worker
-- writes, the register access of the two backends, the USB descriptors, the constant tables of the
-- boards, the profiling build, and the host tools.
pub mod Prelude
pub mod Ring
pub mod Bridge
pub mod LineCoding
pub mod BaudRate
pub mod Policy
pub mod DmaProgress
pub mod Control
pub mod Runtime
pub mod Plane
pub mod Driver
pub mod Usb
pub mod Claim
pub mod Platform
pub mod Worker
