-- ===== src/Lib.antt =====
-- A verification library for nano_tick, a pipeline that carries Binance ticks from a websocket to a
-- kdb store.
--
-- The program's parts. On the ingest host, ingest/src/streams/base.py keeps the websocket open and
-- ingest/main.py passes its normalised ticks to a sink: the TCP sink (ingest/src/sinks/tcp.py)
-- numbers and buffers them until they are acknowledged. On the store host the feedhandler
-- (resources/feedhandler.py) takes trades and quotes from a broker, queues them, drops duplicates
-- by symbol and id, closes gaps over REST, and feeds the rest to the roller. The roller and the
-- writer (resources/backfill.py) keep the current day in memory and save it to a date partition.
-- The same file fills past days from the archive, whose files resources/binance.py reads, and pages
-- missing trades with clients/binance.py. resources/recorder.py and tools/receiver.py are two more
-- subscribers. platform/app.py fills the window from the archive and then runs the feedhandler over the
-- same store. On the side of the readers, resources/reader.py queries bars and features,
-- resources/experiment.py loads days of them, resources/evaluation.py splits the features into training
-- and test rows and scores the models of resources/alpha.py and others on them, and
-- resources/dashboard.py shows a window of bars.
--
-- Which file models which part:
--   Base          shared names; Python's exceptions as Result, integers as ℤ, dicts as Dict, and
--                 the methods of str as Text
--   Tcp           ingest/src/sinks/tcp.py: TcpSink with send, the handlers of its tasks; Tcp/Session
--                 is _run as a state machine, where an event is one step of the event loop
--   Mqtt          ingest/src/sinks/mqtt.py: MqttSink over the paho client, as runs over messages and
--                 callbacks
--   WalkForward   resources/evaluation.py: walk_forward_splits
--   Store         resources/backfill.py: HdbWriter, over what platform/schema.q does to the tables;
--                 Store/Partitions is the search of the date directories
--   Roller        resources/backfill.py: RdbRoller
--   Bridge        resources/backfill.py: bridge
--   Backfill      resources/backfill.py: plan_dates, run_backfill, make_fetch_day, run, prune;
--                 Backfill/Config is BackfillConfig
--   Client        clients/binance.py: WeightPacer, _get, the end of fetch_trades
--   Data          resources/binance.py: _to_millis, verify_checksum, iter_trade_chunks; Data/Live has
--                 the parsers of JSON objects, and Data/Pipeline puts the normalisers before them
--   Batch         resources/feedhandler.py: _dedup, _by_symbol
--   Feed          resources/feedhandler.py: FeedHandler; Feed/Gap puts the bridge into it, and
--                 Feed/Run is run as a machine over callbacks, signals and rounds
--   App           platform/app.py: main
--   Stream        ingest/src/streams/base.py: WebsocketStream.messages; Stream/Url has the URLs of
--                 ingest/src/streams/binance.py
--   Ingest        ingest/main.py: run, start_sink; ingest/src/config.py; both functions of
--                 ingest/src/normalisers/binance.py
--   Recorder      resources/recorder.py: Recorder; tools/receiver.py: Receiver
--   Evaluation    resources/evaluation.py: feature_matrix, both metrics, evaluate, over an interface of
--                 numpy floats (Base/Numpy) and of models
--   Alpha         resources/alpha.py: ImbalanceAlpha
--   Dates         datetime.strptime of the formats in use, and ordinals of dates
--   Reader        resources/reader.py: bar sizes, dates, ReaderConfig and the queries of HdbReader
--   Experiment    resources/experiment.py: date_range, load_features, main up to its output
--   Dashboard     resources/dashboard.py: instants, windows, bars, records and the page
-- The state of each part is a record with the attributes of the class; an operation takes the
-- state and returns the next one, in a Result where it may raise. Feed uses Batch, Roller and Store
-- the way the code calls them. A Tests module beside each part has runs and instances.
--
-- Bounds and fuel. Python integers are ℕ where the code has counts and ids and ℤ where a sign
-- can reach a test. Bridge runs on fuel for its rounds: each round inserts a trade at least, so
-- one more than the trades left is enough. Client runs on fuel for its requests: retries + 10, the
-- sum of the two budgets. All other loops are structural.
--
-- Parameters: the text of json.dumps, the pages that the REST API serves, the replies of the HTTP
-- server, the hash of a checksum, the operations of numpy and sklearn, the embedded q, the paho client,
-- and float. What the feedhandler reads of a payload, its symbol and its row, is a parameter that may
-- raise, as a payload without them passes the check of the callback. The disk of the recorder does
-- what a value of Disk says.
--
-- Not modelled: logging and statistics, the setup of the paho client, headers of requests, column types
-- and bars in kdb, the conversion of q tables to pandas, argument parsers and the text of reports, the
-- main functions that set up tasks and signals, deployment. They have no state of their own, or only
-- call packages that are not in the repository.
pub mod App
pub mod Mqtt
pub mod Dashboard
pub mod Experiment
pub mod Reader
pub mod Dates
pub mod Alpha
pub mod Evaluation
pub mod Base
pub mod Tcp
pub mod WalkForward
pub mod Store
pub mod Roller
pub mod Bridge
pub mod Batch
pub mod Feed
pub mod Client
pub mod Backfill
pub mod Recorder
pub mod Data
pub mod Ingest
pub mod Stream
