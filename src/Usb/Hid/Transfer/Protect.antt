-- ===== src/Usb/Hid/Transfer/Protect.antt =====
-- A result that waits is not replaced by the host: the transfers of firmware/src/usb/usb_hid.c while
-- a save is queued or a reboot is scheduled.
use pico_uart.Runtime.{port_count}
use pico_uart.Usb.Hid.Poll.{put_channel, capture_at, reset_host_state, Env}
use pico_uart.Usb.Hid.Command.{handle_command}
use pico_uart.Usb.Hid.{is_pending, Hid}
use pico_uart.Prelude.{
  ◌-◌, ◌+◌, ltb, leb, ◌==◌, ◌&&◌, not, arith, by_test, ◌∙◌, ap₂, [], ◌||◌, Option, refl, true, ◌∷◌,
  ℕ, ◌≡◌, Bool, List,
}
use pico_uart.Usb.Hid.Transfer.{
  diagnostic_base_id, channel_base_id, is_input, telemetry_id, configuration_id, control_id,
  device_info_id, is_feature, ReportType, set_allowed, diagnostic_payload, channel_payload,
  get_report, get_transfer, report_payload, set_setup, set_data, set_report,
}

-- What the host can do.
pub data HostCall : Type 0 where
  get_call : Env → ℕ → ReportType → ℕ → HostCall
  setup_call : Bool → ReportType → ℕ → ℕ → HostCall
  data_call : (ℕ → ℕ) → Bool → Bool → ReportType → ℕ → ℕ → List ℕ → HostCall
  set_call : (ℕ → ℕ) → Bool → ℕ → ReportType → Option (List ℕ) → ℕ → HostCall
  session_call : ℕ → HostCall

unfoldable pub host_call : HostCall → Hid → Hid
host_call (get_call env id kind wanted) hid = (get_transfer env id kind wanted hid).1
host_call (setup_call is_out kind id wanted) hid = (set_setup is_out kind id wanted hid).1
host_call (data_call timeout closed is_out kind id wanted received) hid =
    (set_data timeout closed is_out kind id wanted received hid).1
host_call (set_call timeout closed id kind buffer size) hid =
    (set_report timeout closed 0 id kind buffer size hid).0
host_call (session_call now_us) hid = reset_host_state now_us hid

unfoldable pub host_calls : List HostCall → Hid → Hid
host_calls [] hid = hid
host_calls (c ∷ cs) hid = host_calls cs (host_call c hid)

-- The result of the last command, and what it has scheduled.
record IsSame (hid hid' : Hid) : Type 0 where
  command : hid'.command ≡ hid.command
  status : hid'.command_status ≡ hid.command_status
  reason : hid'.error_reason ≡ hid.error_reason
  profile : hid'.requested_profile ≡ hid.requested_profile
  reboot : hid'.reboot_pending ≡ hid.reboot_pending
  deadline : hid'.reboot_deadline ≡ hid.reboot_deadline

abbrev pub in_flight : Hid → Bool
in_flight hid = is_pending hid.command_status || hid.reboot_pending

refl-IsSame : (hid : Hid) → IsSame hid hid
refl-IsSame hid = record {
  command = refl;
  status = refl;
  reason = refl;
  profile = refl;
  reboot = refl;
  deadline = refl;
}

captured-IsSame :
    (env : Env) (id : ℕ) (hid : Hid)
    → IsSame hid (channel_payload env id hid).1 × IsSame hid (diagnostic_payload env id hid).1
unfolding channel_payload diagnostic_payload capture_at put_channel
captured-IsSame env id hid = (
  record {
    command = refl;
    status = refl;
    reason = refl;
    profile = refl;
    reboot = refl;
    deadline = refl;
  },
  record {
    command = refl;
    status = refl;
    reason = refl;
    profile = refl;
    reboot = refl;
    deadline = refl;
  },
)

payload-IsSame :
    (env : Env) (id : ℕ) (kind : ReportType) (hid : Hid)
    → IsSame hid (report_payload env id kind hid).1
unfolding report_payload
payload-IsSame env id kind hid =
    let P : Option (List ℕ) × Hid → Type 0 = λ r. IsSame hid r.1 in
    let here = refl-IsSame hid in
    let f = is_feature kind in
    by_test P (f && id == device_info_id) (λ _. here)
      (λ _.
        by_test P (f && id == configuration_id) (λ _. here)
          (λ _.
            by_test P (f && id == control_id) (λ _. here)
              (λ _.
                by_test P (f && id == telemetry_id) (λ _. here)
                  (λ _.
                    by_test P
                      ((f || is_input kind)
                        && leb channel_base_id id
                        && ltb id (channel_base_id + port_count))
                      (λ _. (captured-IsSame env (id - channel_base_id) hid).0)
                      (λ _.
                        by_test P
                          (f
                            && leb diagnostic_base_id id
                            && ltb id (diagnostic_base_id + port_count))
                          (λ _. (captured-IsSame env (id - diagnostic_base_id) hid).1)
                          (λ _. here))))))

command-IsSame :
    (timeout : ℕ → ℕ) (closed : Bool) (request : Option (List ℕ)) (size : ℕ) (hid : Hid)
    → in_flight hid ≡ true
    → IsSame hid (handle_command timeout closed request size hid).1
unfolding handle_command
command-IsSame timeout closed request size hid f =
    by_test (λ (r : Bool × Hid × Option Bool). IsSame hid r.1) (in_flight hid)
      (λ _. refl-IsSame hid) (λ g. absurd (ground arith))

call-IsSame : (c : HostCall) (hid : Hid) → in_flight hid ≡ true → IsSame hid (host_call c hid)
unfolding host_call get_transfer get_report set_setup set_data set_report set_allowed
    reset_host_state
call-IsSame (get_call env id kind wanted) hid f = payload-IsSame env id kind hid
call-IsSame (setup_call is_out kind id wanted) hid f =
    by_test (λ (r : Bool × Hid). IsSame hid r.1) (not (set_allowed is_out kind id hid))
      (λ _. refl-IsSame hid) (λ g. absurd (ground arith))
call-IsSame (data_call timeout closed is_out kind id wanted received) hid f =
    by_test (λ (r : Bool × Hid × Option Bool). IsSame hid r.1)
      (not (set_allowed is_out kind id hid)) (λ _. refl-IsSame hid) (λ g. absurd (ground arith))
call-IsSame (set_call timeout closed id kind buffer size) hid f =
    by_test (λ (r : Hid × Option Bool). IsSame hid r.0) (is_feature kind && id == control_id)
      (λ _. command-IsSame timeout closed buffer size hid f) (λ _. refl-IsSame hid)
call-IsSame (session_call now_us) hid f = record {
  command = refl;
  status = refl;
  reason = refl;
  profile = refl;
  reboot = refl;
  deadline = refl;
}

trans-IsSame : (a b c : Hid) → IsSame a b → IsSame b c → IsSame a c
trans-IsSame a b c v w = record {
  command = w.command ∙ v.command;
  status = w.status ∙ v.status;
  reason = w.reason ∙ v.reason;
  profile = w.profile ∙ v.profile;
  reboot = w.reboot ∙ v.reboot;
  deadline = w.deadline ∙ v.deadline;
}

calls-IsSame :
    (cs : List HostCall) (hid : Hid) → in_flight hid ≡ true → IsSame hid (host_calls cs hid)
unfolding host_calls
calls-IsSame [] hid f = refl-IsSame hid
calls-IsSame (c ∷ cs) hid f =
    let v = call-IsSame c hid f in
    let f' : in_flight (host_call c hid) ≡ true =
      ap₂ (λ s r. is_pending s || r) v.status v.reboot ∙ f in
    trans-IsSame hid (host_call c hid) _ v (calls-IsSame cs (host_call c hid) f')

-- While a save waits or a reboot is scheduled, no sequence of transfers, of any report, stage and
-- length, and no new enumeration changes the result that the host will read, the profile that is
-- going to be saved, or the reboot and its time.
pub protected_lem :
    (cs : List HostCall) (hid : Hid)
    → (is_pending hid.command_status || hid.reboot_pending) ≡ true
    → let hid' = host_calls cs hid in
      (hid'.command ≡ hid.command)
      × (hid'.command_status ≡ hid.command_status)
      × (hid'.error_reason ≡ hid.error_reason)
      × (hid'.requested_profile ≡ hid.requested_profile)
      × (hid'.reboot_pending ≡ hid.reboot_pending)
      × (hid'.reboot_deadline ≡ hid.reboot_deadline)
protected_lem cs hid f =
    let v = calls-IsSame cs hid f in
    (v.command, v.status, v.reason, v.profile, v.reboot, v.deadline)
