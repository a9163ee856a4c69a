-- ===== src/Examples/Captures.antt =====
-- The capture format on a handle, an executable, a process and an event.
use fibratus.Prelude.{ℕ, ◌<◌, ◌≡◌, refl, true, false, [], ◌∷◌, ◌++◌, none, some, length, arith}
use fibratus.Prelude.Int.{negsuc, u32_mod}
use fibratus.Event.Types.{create_process}
use fibratus.Event.Types.Guids.{bytes}
use fibratus.Capture.Bytes.{
  Bytes, done, ◌>>=◌, little, write_uint16, write_uint32, write_uint64, sized,
}
use fibratus.Capture.Sections.{section, process_sec_v4, pe_sec_v2, event_sec_v2}
use fibratus.Capture.Times.{TimeFormat, ParsesBack}
use fibratus.Capture.Handles.{Meta, Handle, offset}
use fibratus.Capture.Handles
use fibratus.Capture.Handles.RoundTrip.{IsHandle, offset-eq-length, handle_unmarshal-marshal}
use fibratus.Capture.Processes.{Process, write_args, write_envs}
use fibratus.Capture.Processes
use fibratus.Capture.Processes.Reading
use fibratus.Capture.Processes.RoundTrip.{IsProcess, kept_process, process_unmarshal-marshal}
use fibratus.Capture.Executables.{Executable, marshal_executable}
use fibratus.Capture.Executables.Reading.{unmarshal_executable}
use fibratus.Capture.Executables.RoundTrip.{
  IsExecutable, executable_codec, executable_unmarshal-marshal, keeps_executable,
}
use fibratus.Capture.ParamTypes.{ParamType}
use fibratus.Capture.Events.{to_16, Value, Param, EventState, layout, marshal_raw}
use fibratus.Capture.Events.Reading.{unmarshal_raw}
use fibratus.Capture.Events.Values.{IsKept, written}
use fibratus.Capture.Events.Whole.{IsEvent}
use fibratus.Capture.Events.RoundTrip.{kept_event, event_unmarshal-marshal}

-- Times are bytes.
abbrev clock : TimeFormat
clock = record {
  Time = ℕ;
  zero_time = 0;
  format = λ t. t ∷ [];
  parse = λ b. elim b [ [] ↦ none | t ∷ l ↦ some t ];
}

clock-ParsesBack : ParsesBack clock
clock-ParsesBack = record { parse-format = λ t. refl; format_short = λ t. omega arith }

abbrev mutant : Handle
mutant = record {
  num = 412;
  object = 18446628520000000000;
  pid = 5480;
  type = b'M' ∷ b'u' ∷ [];
  name = b'o' ∷ [];
  md = some (Meta.mutant (negsuc 2) true);
}

mutant-IsHandle : IsHandle mutant
mutant-IsHandle = record {
  num_fits = omega arith;
  object_fits = omega arith;
  pid_fits = omega arith;
  md_fits = omega arith;
  short = omega arith;
}

handle_unmarshal-marshal_example :
    Handles.unmarshal little (Handles.marshal little mutant) ≡ done mutant
handle_unmarshal-marshal_example = handle_unmarshal-marshal little mutant mutant-IsHandle

offset-eq-length_example : offset mutant ≡ length (Handles.marshal little mutant)
offset-eq-length_example = offset-eq-length little mutant mutant-IsHandle

abbrev image : Executable ℕ
image = record {
  number_of_sections = 1;
  number_of_symbols = 0;
  image_base = b'1' ∷ b'4' ∷ [];
  entry_point = b'2' ∷ [];
  link_time = 7;
  sections = record { name = b't' ∷ []; size = 4096; entropy = 5; md5 = b'f' ∷ [] } ∷ [];
  symbols = (b'R' ∷ []) ∷ [];
  imports = (b'k' ∷ []) ∷ (b'n' ∷ []) ∷ [];
  version_resources = (b'C' ∷ [], b'M' ∷ []) ∷ (b'D' ∷ [], b'H' ∷ []) ∷ [];
  is_signed = true;
  is_trusted = false;
  cert = some (record {
    not_before = 1;
    not_after = 9;
    serial_number = b'3' ∷ [];
    subject = b'U' ∷ [];
    issuer = b'W' ∷ [];
  });
  is_driver = false;
  is_dll = false;
  is_executable = true;
  is_dotnet = false;
  imphash = b'a' ∷ [];
  anomalies = [] ∷ (b'z' ∷ []) ∷ [];
}

image-IsExecutable : IsExecutable image
image-IsExecutable = record {
  sections_fit = omega arith;
  symbols_fit = omega arith;
  base_short = omega arith;
  entry_short = omega arith;
  few_sections = omega arith;
  each_section = (
    record {
      size_fits = omega arith;
      entropy_fits = omega arith;
      name_short = omega arith;
      md5_short = omega arith;
    },
    tt,
  );
  few_symbols = omega arith;
  each_symbol = (omega arith, tt);
  few_imports = omega arith;
  each_import = (omega arith, (omega arith, tt));
  few_resources = omega arith;
  each_resource = (
    (omega arith, omega arith, omega arith, omega arith),
    ((omega arith, omega arith, omega arith, omega arith), tt),
  );
  resources_map = ((refl, tt), (tt, tt));
  cert_fits = (omega arith, omega arith, omega arith);
  imphash_short = omega arith;
  few_anomalies = omega arith;
  each_anomaly = (omega arith, (omega arith, tt));
}

image_short : length (marshal_executable little clock image ++ []) < u32_mod
unfolding marshal_executable write_uint16 write_uint32 write_uint64 sized
image_short = omega arith

executable_unmarshal-marshal_example :
    unmarshal_executable little clock (marshal_executable little clock image ++ []) pe_sec_v2
    ≡ done image
executable_unmarshal-marshal_example =
    executable_unmarshal-marshal clock-ParsesBack little image [] image-IsExecutable (omega arith)
      image_short

abbrev shell : Process ℕ (Executable ℕ)
shell = record {
  pid = 5480;
  ppid = 748;
  name = b'c' ∷ b'.' ∷ b'e' ∷ [];
  cmdline = b'c' ∷ b' ' ∷ b'/' ∷ b'k' ∷ [];
  exe = b'C' ∷ b':' ∷ [];
  cwd = b'C' ∷ [];
  sid = b'S' ∷ [];
  args = (b'/' ∷ b'k' ∷ []) ∷ [];
  session_id = 1;
  envs = (b'P' ∷ [], b'x' ∷ []) ∷ (b'Q' ∷ [], []) ∷ [];
  handles = mutant ∷ [];
  pe = some image;
  start_time = 11;
  uuid = 77;
  username = b'u' ∷ [];
  domain = b'd' ∷ b'm' ∷ [];
  is_wow64 = false;
  is_packaged = true;
  is_protected = false;
}

shell_short :
    length (Processes.marshal little clock (executable_codec little clock) shell) < u32_mod
unfolding Processes.marshal Handles.marshal section marshal_executable write_uint16 write_uint32
    write_uint64 sized
shell_short = omega arith

shell-IsProcess :
    IsProcess little clock
      (executable_codec little clock)
      (keeps_executable clock-ParsesBack little)
      shell
unfolding write_args write_envs write_uint16 sized
shell-IsProcess = record {
  pid_fits = omega arith;
  ppid_fits = omega arith;
  session_fits = omega arith;
  uuid_fits = omega arith;
  name_short = omega arith;
  cmdline_short = omega arith;
  exe_short = omega arith;
  cwd_short = omega arith;
  sid_short = omega arith;
  username_short = omega arith;
  domain_short = omega arith;
  args_few = omega arith;
  args_short = omega arith;
  envs_few = omega arith;
  envs_short = omega arith;
  envs_map = ((refl, tt), (tt, tt));
  handles_few = omega arith;
  handles_fit = (mutant-IsHandle, tt);
  pe_fits = image-IsExecutable;
  all_short = shell_short;
}

-- The user comes back as the first byte of the PID, 5480 = 104 + 21 * 256.
process_unmarshal-marshal_example :
    Reading.unmarshal little clock
      (executable_codec little clock)
      (Processes.marshal little clock (executable_codec little clock) shell)
      process_sec_v4
    ≡ done (kept_process little clock (executable_codec little clock) shell)
process_unmarshal-marshal_example =
    process_unmarshal-marshal little clock-ParsesBack (keeps_executable clock-ParsesBack little)
      shell shell-IsProcess

-- 2001:db8::1
abbrev address : Bytes
address = 32 ∷ 1 ∷ 13 ∷ 184 ∷ 0 ∷ 0 ∷ 0 ∷ 0 ∷ 0 ∷ 0 ∷ 0 ∷ 0 ∷ 0 ∷ 0 ∷ 0 ∷ 1 ∷ []

-- A process start with parameters of several kinds, and a tag without a key, which is lost.
abbrev started : EventState (Param ℕ) ℕ (Executable ℕ)
started = record {
  seq = 21;
  pid = 748;
  tid = 4;
  type = bytes create_process;
  cpu = 1;
  name = b'C' ∷ b'P' ∷ [];
  category = b'p' ∷ [];
  description = b'c' ∷ [];
  host = b'h' ∷ [];
  timestamp = 9;
  params =
      (
        b'n' ∷ [],
        record {
          type = ParamType.unicode_string;
          value = Value.text (b'x' ∷ b'y' ∷ []);
          shown = [];
        },
      )
      ∷ (b'p' ∷ [], record { type = ParamType.pid; value = Value.u32 5480; shown = [] })
      ∷ (b'i' ∷ [], record { type = ParamType.int16; value = Value.i16 (negsuc 4); shown = [] })
      ∷ (b't' ∷ [], record { type = ParamType.time; value = Value.time 12; shown = [] })
      ∷ (
        b'a' ∷ [],
        record { type = ParamType.slice; value = Value.addresses (4096 ∷ []); shown = [] },
      )
      ∷ (b'6' ∷ [], record { type = ParamType.ipv6; value = Value.ip address; shown = [] })
      ∷ (
        b's' ∷ [],
        record { type = ParamType.sid; value = Value.binary (1 ∷ 5 ∷ 9 ∷ []); shown = [] },
      )
      ∷ [];
  metadata = ([], b'x' ∷ []) ∷ (b'k' ∷ [], b'v' ∷ []) ∷ [];
  ps = some shell;
}

started_short :
    length (written (marshal_raw little clock (executable_codec little clock) started)) < u32_mod
unfolding marshal_raw Processes.marshal Handles.marshal section marshal_executable write_uint16
    write_uint32 write_uint64 sized bytes to_16
started_short = omega arith

started-IsEvent :
    IsEvent clock-ParsesBack little (λ a. a) (keeps_executable clock-ParsesBack little) started
unfolding layout bytes to_16
started-IsEvent = record {
  seq_fits = omega arith;
  pid_fits = omega arith;
  tid_fits = omega arith;
  type_size = refl;
  name_short = omega arith;
  category_short = omega arith;
  description_short = omega arith;
  host_short = omega arith;
  few_params = omega arith;
  each_param = (
    (omega arith, IsKept.text _ _ (omega arith)),
    (
      (omega arith, IsKept.u32 _ _ (omega arith)),
      (
        (omega arith, IsKept.i16 _ _ (omega arith)),
        (
          (omega arith, IsKept.time _ _),
          (
            (omega arith, IsKept.addresses _ _ (omega arith)),
            (
              (omega arith, IsKept.ipv6 address _ refl),
              ((omega arith, IsKept.binary _ _ (omega arith)), tt),
            ),
          ),
        ),
      ),
    ),
  );
  params_map = (
    (refl, (refl, (refl, (refl, (refl, (refl, tt)))))),
    (
      (refl, (refl, (refl, (refl, (refl, tt))))),
      (
        (refl, (refl, (refl, (refl, tt)))),
        ((refl, (refl, (refl, tt))), ((refl, (refl, tt)), ((refl, tt), (tt, tt)))),
      ),
    ),
  );
  few_tags = omega arith;
  each_tag = ((omega arith, omega arith), ((omega arith, omega arith), tt));
  tags_map = ((refl, tt), (tt, tt));
  ps_fits = shell-IsProcess;
  all_short = started_short;
}

event_unmarshal-marshal_example :
    (marshal_raw little clock (executable_codec little clock) started >>= λ b.
    unmarshal_raw little clock (λ a. a) (executable_codec little clock) b event_sec_v2)
    ≡ done (
        kept_event clock-ParsesBack little
          (λ a. a)
          (keeps_executable clock-ParsesBack little)
          started)
event_unmarshal-marshal_example =
    event_unmarshal-marshal clock-ParsesBack little (λ a. a)
      (keeps_executable clock-ParsesBack little) (record { reads = λ a h. refl }) started
      started-IsEvent
