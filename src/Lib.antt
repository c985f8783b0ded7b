-- ===== src/Lib.antt =====
-- bambu-timelapse listens to a Bambu printer over MQTT, grabs a frame of the camera at every new
-- layer, and at the end of the print encodes the frames and posts the video, or keeps it locally.
--
-- Parts and how they interact:
--   Telemetry (internal/telemetry/report.go): the printer sends deltas, and `merge` folds each into
--     one view, `State`; the accessors read the layer, the task id and so on from it. The child
--     Filament is the caption line of the loaded trays.
--   Session (internal/session/session.go): the record of one print and the staging area on disk.
--     `Store` holds the directories, `JobDir` what the program reads of one of them. `create`,
--     `save`, `list`, `park` and `sweep_failed` are the methods of their names. Atomic is a save
--     write by write, and Paths what `FramePath` and `PreviewPath` name.
--   Service (internal/service/service.go and metrics.go): the daemon. The record `Service` is its
--     state, with a `*Session` as a number and each goroutine as an entry: the grab in flight, the
--     previews that are fetched, the finalisations started. Lifecycle is `handle` and what it calls,
--     Reconcile is `reconcile`, Finalize is `finalize`, `deliverLocally` and `coverFrame`, Retry is
--     `retryParked`. Events lists what moves the daemon (a message, the end of a goroutine, a
--     connection made or lost), and `run` is any order of them. A handler runs to its end before the
--     next one: the MQTT client delivers in order, and goroutines take `s.mu` for what they share.
--   Service.Preflight (internal/service/preflight.go): the checks before the start.
--   Service.Caption and Service.Wording (service.go and helpers.go): what a video is captioned, named
--     and posted with.
--   Camera (internal/camera/encode.go): the filter graph, the command file and ffmpeg's arguments.
--   Uploader (internal/uploader/uploader.go): the multipart request and what its answer means.
--   Config (internal/config/config.go): the environment and its rules.
--   Preview (internal/preview/preview.go): which archive and which picture show the running plate;
--     its child Fetch runs over the FTPS client.
--   Ftps (internal/ftps/ftps.go): the client of the printer's file store. `Client` is the control
--     connection: what the printer still sends and which writes fail, and what the client did.
--   Probe (internal/probe/probe.go): the questions that Preflight asks the printer.
--   Camera.Tools (internal/camera/camera.go, support.go and font.go): the command lines of ffmpeg and
--     ffprobe, and what is read from their output.
--   Debug (internal/debug/debug.go): the diagnostic run, with its writer, its wait for reports
--     (Snapshot) and the texts that it prints (Summary).
--   Command (cmd/bambu-timelapse/main.go): the commands, what they run, and their exit codes.
--   Service.Startup, Service.Timed and Service.Health (service.go, metrics.go and http.go): `New` and
--     the start of `Run`, `RunTimed`, and the health endpoint.
--   Service.Files (helpers.go, helpers_unix.go and helpers_windows.go): moving the video, the probe of
--     the staging directory, a parked caption and the free space; its child Local is
--     what `deliverLocally` does to the files.
--   Go and Prelude: texts as lists of bytes, UTF-8, numerals, splitting and trimming, floats, lists
--     and integers.
--
-- Parameters: float64 is the interface `Float`; encoding/json is `Decoder` and the decoders of Config
-- and Uploader; the verb %q is `quote`. What the clock, the disk, ffmpeg, the camera and the network
-- answer are arguments: `World`, `Host`, `Exchange`, `Answers`. Go maps are lists of which the first
-- member with a key counts. Integers are not bounded, but for the durations and byte counts of
-- Config and what strconv.Atoi accepts, which have 64 bits. The only bounded loop is that of
-- `finalize`, with its own three rounds; every other loop runs along a list.
--
-- Not modelled: the MQTT client and the HTTP listener, which are third-party or the standard
-- library's, TLS and deadlines but as the errors that they end in, the run of ffmpeg, and the wait
-- for a grab before a finalisation.
pub mod Prelude
pub mod Go
pub mod Telemetry
pub mod Session
pub mod Service
pub mod Uploader
pub mod Camera
pub mod Config
pub mod Preview
pub mod Ftps
pub mod Probe
pub mod Debug
pub mod Command
