-- ===== src/Lib.antt =====
-- Verification of C programs of the repository: each is a command line tool of its own.
--
-- * Pem models src/main/c/foo/PemCodec.c, which decodes a PEM document from stdin.
--   Pem/Base64: decodeB64UpToDash. Pem/Document: decodePem. Pem/Program: parseArgs and main.
--   Pem/Alphabet and Pem/Stream have an encoder of base64 that does not look at the code; Pem/Group,
--   Pem/Exact and Pem/Armor compare the two.
-- * Asn1 models src/main/c/foo/Asn1Digger.c, which prints the ASN.1 tags of stdin and a hex dump of
--   their values. Asn1/State: struct AsnDigger and what is printed. Asn1/Names:
--   constructPrintableTypename. Asn1/Header: asnType, asnLength, asnValue. Asn1/Dump:
--   hexDump_readChunk and hexDump_dumpFromBuf. Asn1/Loop: run. Asn1/OpStack: opStackPush and
--   opStackPop. Asn1/Program: parseArgs and main. The other files below Asn1 are about these.
-- * Mvn models src/main/c/postshit/launch/mvn/mvn-launch.c, which puts a command line for maven
--   together and starts it. Mvn/Append: appendRaw, appendQuotEscaped, appendArg. Mvn/Args: the loop
--   over the arguments. Mvn/Launch: appendFromEnvironIfNotEmpty and the chains of calls. Mvn/Main:
--   main. Mvn/Started and Mvn/Success are about what is started. Mvn/VersionsSet models
--   src/main/c/postshit/launch/mvn/mvn-versions-set.c, which has the same append functions.
-- * Mdns models src/main/c/foo/MdnsSd.c, a start of a client for service discovery. Mdns/Header: the
--   functions mDnsSd_set... and mDnsSd_zeroReserved. Mdns/Program: parseArgs, run and main.
-- * Ocexec models src/main/c/postshit/launch/openshift/ocexec.c, a start of a launcher for commands in
--   pods. Ocexec/Program: parseArgs, resolveNamespace, run and main.
-- * Disks models src/main/c/paisa-fleet/FindFullDisks.c, which runs df on many machines, some at a
--   time. Disks/State: the structs and the event loop. Disks/Args: parseArgs. Disks/Rows: onCsvRow.
--   Disks/Visit: visitDevice. Disks/Output: examineDeviceResult. Disks/Loop: the other handlers, and main. The
--   event loop, the CSV parser and the processes belong to a library; a run is any sequence of events
--   that can happen in this order. The other files below Disks are about what runs keep.
-- * Houston models src/main/paisa/HoustonLogGet.c, which fetches the log files of the houston pod.
--   Houston/Args: parseArgs. Houston/Pods: appendToGetPodsBuf and the search in onGetPodsJoined.
--   Houston/Program: beginZipDownload, appendToCurrentOutfile, getHoustonPodname and main. Houston/Lines and
--   Houston/Fetch read the list of pods by its lines.
-- * Merge models src/main/paisa/LogMerge.c, which merges log files by the time of their entries.
--   Merge/Args: parseArgs. Merge/Pattern: the pattern of initStuff. Merge/Source:
--   refillBufferForSourceByArg and markLogEntryForSourceByArg. Merge/Program:
--   findOldestLogEntryFromAllHeads, writeLowestEntryToDst, the rounds from one refillSrcBuffers to the
--   next, openSrcFiles and main. Merge/Spec is the merge of texts without buffers; the other files below
--   Merge compare the two.
-- * Jenkins models src/main/paisa/JenkinsReBuild.c, which asks for the state of the last build of a
--   branch. Jenkins/Args: parseArgs. Jenkins/Request: the URL in TODO_refactorMeToAProperApi.
--   Jenkins/Response: HttpReq_onRspHdr, HttpReq_onRspBody and HttpReq_onRspDone. Jenkins/Program: the request with
--   its response, and main.
-- * Flood models src/main/paisa/HttpFlood.c, which sends HTTP requests as many clients. Flood/Args:
--   parseArgs. Flood/Loop: onRspHdr, onRspDone, onError, sendAnotherRequest, periodicallyPrintProgress, initStuff and
--   main; the clock, the timers and the requests on their way are those of the library's loop. The other
--   files below Flood are about what any run keeps.
-- * Observe models src/main/paisa/ObserveDeployedVersions.c, which asks a server for the state of a service.
--   Observe/Fetch: fetchServiceStatus and newHttpsRequest. Observe/Program: parseArgs, onHttpRspHdr, onHttpRspBody,
--   onHttpRspDone, onHttpsError, run and main. Observe/Exits is about a whole response.
-- * Fin models src/main/paisa-SendAfterFin/SendAfterFin.c, a client that sends behind its FIN, and the server.
--   Fin/Args: parseArgs and main. Fin/Sides: what runClient and runServer do with what each call of the system
--   returns. Fin/Tcp: a connection, a parameter, with its documented behaviour. Fin/Talk: the two programs over one
--   connection, in any order of their calls. Each call may fail. Fin/Honest and Fin/Serving: what the states of the
--   two tell of the connection. Fin/Queue: a connection.
-- * Snippets models two pieces of src/main/c/common/snippets.c: ensureBufCap (Snippets/Buffer) and HUMANIZE_SI
--   (Snippets/Humanize).
-- * Common has what they share: tests on numbers, lists over the native numbers, bytes and texts.
--
-- stdin is the list of the octets that are left, with a flag that tells whether it ends with a read
-- error; stdout is a list of octets, or of events where the layout of the output is of no interest.
-- `printf` of PemCodec may fail, as a function of what has been printed tells. `strtol`, the calls of
-- Windows and of the network, the values of ENOBUFS and ENOTSUP, what an array holds before it is
-- written (also what the memory of a new device of Disks holds for the length of its output, which is never set), the connection between the two programs of Fin, and what HttpFlood computes in float are parameters. A failed assert, `abort`, a write behind the end of a buffer and the use of a variable
-- that has no value are results of their own.
--
-- Fuel: the loop of Asn1 takes two rounds for each octet of stdin and two more, since a round either
-- reads an octet or prints what the round before it has read; the loop that drains stdin in Pem takes
-- one round for each octet and one more; the loop that waits in Mdns takes seven, as it gives up behind
-- six time-outs of three seconds. All three are proved to be enough. The
-- rounds of Merge take fuel as an argument: one more than there are bytes in the files is proved to be enough for files
-- below 64 KiB and for larger ones with short entries; two is enough for one refill, as the buffer that grows once has room.
--
-- Not modelled: messages on stderr; failing allocations; the libraries behind the event loop, the
-- threads, the processes and HTTP; sums of lengths that leave the range of an int in the append
-- functions, as no argument of a process is that long; the help texts; the pieces of snippets.c for the preprocessor
-- and for Windows; PatchReverse.c, which does nothing yet; and the programs and scripts in other languages.
pub mod Common
pub mod Asn1
pub mod Disks
pub mod Fin
pub mod Flood
pub mod Houston
pub mod Jenkins
pub mod Mdns
pub mod Merge
pub mod Mvn
pub mod Observe
pub mod Ocexec
pub mod Pem
pub mod Snippets
