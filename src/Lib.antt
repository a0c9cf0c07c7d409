-- ===== src/Lib.antt =====
-- Control plane of a small Kubernetes: the objects, the informers that watch them, the scheduler,
-- the horizontal pod autoscaler, the replica set controller, the endpoints controller, the
-- controllers of GPU jobs and ingresses, the node agent, the serverless router, and the API server
-- that stores the objects.
--
-- The API server keeps every object in etcd under its URI. A controller runs an informer for each
-- kind it watches: the reflector lists the objects, then follows a watch, keeps a store, and sends
-- a notification for each change and a resync when a listing differs from the store. Controllers
-- answer with requests to the API server: the scheduler binds pods to nodes, the replica set
-- controller creates and deletes pods, the autoscaler changes the wanted number of replicas, the
-- endpoints controller writes the addresses of pods into services. On each node the agent runs the
-- containers of the pods that are bound to it, and the router sends requests on to functions.
--
-- Files, with the code they are about:
--   Prelude, Prelude/*      shared helpers: Boolean tests, equality as an interface, lists, `HashMap`
--                           as an association list, machine integers as bit patterns, results, texts.
--   Objects, Objects/*      resources/src/objects: one record or data type for each struct or enum,
--                           `Labels::matches`, the methods of pods, containers and nodes, `uri`.
--   Informer/Defs           resources/src/informer/reflector.rs: `handle_watcher`, `run` (`turn`).
--     View, Replay, Relist  its theorems: against the map of the server, and for a consumer.
--   Scheduler/Cache         scheduler/src/cache.rs, a function for each method.
--     Algorithm             scheduler/src/algorithm: `simple`, `dummy`.
--     Run                   scheduler/src/scheduler.rs: the branches of the loop.
--     Least, Balance, Counts, Queue   its theorems.
--   PodAutoscaler/Calculator          controllers/src/podautoscaler/replica_calculator.rs.
--     Limits, Control, Reconcile, WorkQueue   horizontal.rs: the policies, the stabilization and
--                           the decision, `reconcile`, and the queue of names in `run`.
--     Float                 the interface of `f64`, a parameter.
--     Window, Rate, Bounds  its theorems (those on the queue are in WorkQueue).
--   ReplicaSetController/Defs         controllers/src/replica_set/controller.rs.
--     Sorting, Victim, Turn, Stores, Converge, Progress   its theorems: the pod to delete, and the
--                           control loop.
--   GpuJobController/Files, Defs      controllers/src/gpu_job/controller.rs and utils.rs.
--     Bounds                its theorems.
--   IngressController/Texts, Defs   controllers/src/ingress: the file that configures nginx.
--     Plain, Proxied, Reconfigured   its theorems.
--   Endpoints/Defs          controllers/src/endpoints/main.rs and utils.rs.
--     Resync, Added         its theorems.
--   ApiServer/Etcd          api_server/src/handler/utils.rs: etcd as a map from keys to objects.
--     Handlers, Cluster     the handlers of pod.rs, replica_set.rs, node.rs, binding.rs, service.rs.
--     Apps, Functions       those of hpa.rs, gpu_job.rs, workflow.rs, ingress.rs, function.rs.
--     Targets               the scrape targets in metrics.rs. Scraping: its theorem.
--     Filed, AppSteps, Steps   sequences of calls of the handlers, and what they keep.
--     Invariant, Kinds, Bind, RoundTrips, Services, Workflows   its theorems.
--   NodeAgent/Docker        rkubelet/src/docker.rs and volume.rs: the calls to docker, and the agent's
--                           monad: state is the list of calls made, which no error undoes.
--     Status, Naming, Pods, Lifecycle   rkubelet/src/pod.rs.
--     Worker                rkubelet/src/pod_worker.rs, status_manager.rs.
--     Phase, Restart, Finished, Teardown, Tracking, Resync   its theorems.
--   Serverless/Walk         serverless/src/router/workflow.rs: `handle_workflow`.
--     Route                 serverless/src/router/route.rs: `route`, `activate`.
--     Termination, Activation   its theorems.
--   Examples/*              concrete inputs for the theorems.
--
-- State is passed explicitly. A store behind a lock is the map at that moment; a handler returns
-- the new state and the requests that it makes. Answers from outside (the API server, the metrics
-- server, its file, the clock, random draws) are arguments. One reading of the clock stands for the several
-- readings of one run of the autoscaler. Integers of 32 and 64 bits wrap around, as in a release
-- build. A panic is a result of its own where the code can panic in a release build. Loops are
-- structural recursions, but for some: the walk through a workflow runs on fuel, as it need not
-- end if the workflow has a cycle, and the polls of an activation do, for which 61 rounds are
-- enough, as they are for the wait for the image of a function. The address generator of services
-- takes its list of random draws, and has a result if one is free. Calls that the node agent makes
-- concurrently are made in the order of the list. In ReplicaSetController/Turn a request to the
-- API server is carried out on the store before the controller looks again. Notifications of an
-- informer find their receiver, and nginx takes the file that is written.
--
-- Not modelled: the status of the node and the HTTP interface of rkubelet, the network proxy, the
-- command line, the metrics of the router, the controller of functions, the queries of the API
-- server to the metrics server, its watches and proxies, the JSON texts, and an etcd that does not
-- answer.
pub mod Prelude
pub mod NodeAgent
pub mod Objects
pub mod Informer
pub mod Scheduler
pub mod PodAutoscaler
pub mod ReplicaSetController
pub mod GpuJobController
pub mod IngressController
pub mod Endpoints
pub mod ApiServer
pub mod Serverless
pub mod Examples
