-- ===== src/Lib.antt =====
-- ThreadHaul is a Windows service that watches critical processes and, while they are under load,
-- lowers or suspends batch processes (src/actuator), judges load (src/telemetry), keeps a log
-- (src/logging), reads its settings (src/config), shows a dashboard (src/service) and talks to a
-- controller over an encrypted channel (src/common). On each poll the service samples the critical
-- processes, combines the samples into one pressure, adapts the thresholds to it, lets the tracker
-- count streaks and the actuator move its state machines, and lets auto-protect look at the other
-- processes. Commands come from a pipe, from the dashboard and from the controller, which also asks
-- for a bias of the thresholds; all of these change the service's state one at a time.
--
-- Which file models which part:
--   Actuator.Threads    src/actuator/ThreadControl.cpp: SuspendAllThreads, ResumeAllThreads
--   Actuator.Os         src/actuator/PriorityControl.cpp: SetProcessPriority, over the Windows calls
--   Actuator.Machine    src/actuator/StateMachine.cpp: ProcessStateMachine, one function per method
--   Actuator.Manager    src/actuator/ActuatorManager.cpp: ActuatorManager, one function per method
--   Telemetry.Tracker   src/telemetry/ThresholdTracker.h: Add, Reset
--   Telemetry.AutoPolicy  src/telemetry/AutoProtectPolicy.h: AutoProtectState, SelectAutoTargets
--   Telemetry.Monitor, CpuMath  src/telemetry/ProcessMonitor.cpp, CpuMath.cpp: TrackedProcess,
--                       CpuPercentFromTicks
--   Telemetry.Safety    src/telemetry/ProcessSafety.cpp: PathIsUnder,
--                       ServiceAccount, ClassifyProcess
--   Telemetry.Window    src/telemetry/AdaptiveThresholds.cpp: the window of samples
--   Telemetry.Adaptive  src/telemetry/AdaptiveThresholds.cpp: Fit, Forecast, Offset, Adjust
--   Logging.Names       src/logging/JsonLinesLogger.cpp: StateName, ActionName, ThresholdName
--   Logging.Chain       src/logging/LogChain.cpp: ChainLine, VerifyChain;
--                       the chaining in WriteLine of src/logging/JsonLinesLogger.cpp
--   Config.Fields, Sections, Optional, Runtime  src/config/Config.cpp: the field readers, ParseConfig
--   Config.Secrets      src/config/Secrets.cpp: ProtectSecret, UnprotectSecret
--   Service.Session     src/service/SessionGuard.h: CurrentOrNewKey, Check, Revoke
--   Service.AutoProtect src/service/AutoProtect.cpp: Configure, Tick, Lower, Restore, Exempt
--   Service.Daemon      src/service/Daemon.{h,cpp}: the state; Commands is HandleCommand, Reload is
--                       LoadAndVerify, CheckConfigReload and ApplyConfig, Pressure and Poll are Poll
--                       and DiscoverBatchProcesses, Events is Initialize, Run and the order of events
--   Service.Dashboard   src/service/Dashboard.cpp: Authorized, Handle; src/service/Daemon.cpp: SafetyOf
--   Service.Coordination  src/service/Coordination.cpp: SendEvent, the waiting in Loop
--   Controller          src/controller/main.cpp: LockedOut, RecordFailure, Rebalance, ServeAgent
--   Channel.Bytes, Frame, Link  src/common/SecureChannel.cpp: ToHex, FromHex, Nonce, SendFrame,
--                       ReceiveFrame, Send, Receive
-- The modules below these hold the lemmas and theorems, Base what they share, and Examples a run of
-- most of the theorems at concrete values.
--
-- How the code is read: an object is a record, a method a function to the new record; what a method
-- does to Windows passes the system's state along, and the calls of a callback are returned as a
-- list. Numbers are natural numbers; `DWORD` counts keep their wrap-around where the code relies on
-- it, sequence numbers wrap at 2^64, times are those of a clock that never goes back. A `double` is
-- a value of any type with the comparisons of the interface Real, which a NaN may belong to, and the
-- operations of the interface Arithmetic, of which no law is assumed. An exception is an error
-- value. All loops are over lists but the waiting of Service.Coordination, whose fuel is one more
-- than the 300 sleeps of 100 ms in its longest wait of 30 s, and is proved enough. Each method of a
-- class with a mutex is one step.
--
-- Parameters, for code that is not in the repository: the Windows calls on threads and processes
-- (ThreadApi, Os, Queries), on encrypted values (Crypt) and on the processes that auto-protect
-- lowers (ProtectApi) or that are sampled (MonitorApi), text (Host), text and number conversion
-- (Env), the JSON parser, the hash of a line (Lines) and AES-GCM (Cipher). What is assumed of them
-- is a record of laws, with an instance in Examples.
--
-- Not modelled: of src/service/Daemon.cpp the status, the log reader, the roles and the self
-- monitor; the map of tracked critical processes and the pinned identities, whose results are
-- arguments of a poll, and the start and stop of the logger, the dashboard and the connection to the
-- controller. Of the rest of src/service HttpServer, ControlPipe, Alerts, SelfCheck, ConfigSecurity,
-- and the session of Coordination; the files and the rotation of src/logging; the sockets and the
-- console of src/controller; the snapshots and other queries of Windows in src/telemetry; the
-- handshake of src/common; SetProcessRole of src/config. They call Windows and the network, or are
-- glue.
pub mod Base
pub mod Actuator
pub mod Telemetry
pub mod Config
pub mod Channel
pub mod Service
pub mod Logging
pub mod Controller
mod Examples
