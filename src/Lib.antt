-- ===== src/Lib.antt =====
-- The JavaScript and TypeScript code of the repository: the API workbench, a single-page program
-- under playground-ui with which a developer tries the endpoints of the service, the script that
-- copies its build into the service, and the load tests of the service under tests/load. What is
-- modelled is their logic.
--
-- The parts, and how they interact:
--
-- * The catalog (playground-ui/src/features/workbench/catalog.ts) lists the endpoints: method,
--   path, texts, parameters, body, access and special action. Catalog and its children hold all of
--   its entries, one module for each group, and endpointById, endpointCopy and normalizeLocale.
--   Catalog/Entry has the helpers copy and endpoint, Catalog/Ids, Routes, Rules and Paths what
--   holds of every entry.
-- * Types and Constants are types.ts and constants.ts beside it. A union of string literals is a
--   data type, an optional property an Option.
-- * The functions of domain.ts. Template: resolveTemplateString, materialize and createDraft. Uri:
--   the encoders of the language that domain.ts calls. Address: buildPath and
--   buildPathFromDefinition. Headers: buildHeaders, redactHeader, readCookie and isUnsafe. Curl:
--   createCurl and shellEscape. Fetch: requestEndpoint, probeService, parseRequestBody,
--   parseResponse, formatResponse and countOpenApiOperations. Vault: readVault, writeVaultValue
--   and clearVaultStorage. A function that may throw returns an Option, an Effect that may fail a
--   sum with its error.
-- * The provider of workbench-context.tsx. Workbench/State is its state, a record, with the
--   callbacks that change it at once: dismissToast, pushToast, setVariable, setAuthMode and
--   clearVault. Workbench/Capture is captureResponseData. Workbench/Request is runRequest, cut at
--   its await: what it does before, and what it does when the request has ended. Workbench/Session
--   lists the events of a page (calls of the callbacks, ends of requests and probes, timeouts,
--   what mounting reads from the storage) and runs a sequence of them; a request that was aborted
--   ends interrupted. A callback is given the variables, the mode and the base address of the
--   render that made it, which may be older than the state it changes, as in the source.
--   Workbench/Clock is the effect that recomputes the code of the second factor: its timer, its
--   cleanup, which runs after a render and so later than the change of the secret, and its
--   computations, which may end late and out of order. Workbench/Unmount is what leaving the page
--   does to the requests. Workbench/Durable follows the storage beside the variables, up to a
--   reload of the page. Workbench/Issued follows a token from its response to the next request,
--   Workbench/Flights the requests that wait, Workbench/Toasts the toasts.
-- * Detail is the state of the endpoint panel (endpoint-detail.tsx) and its handlers, with the
--   guards of the buttons in endpoint-request-panel.tsx: draft, path override, tab, confirmation,
--   sending, copying and formatting. An action of the user is a step that may end in an exception
--   of the render.
-- * Scenarios are the asynchronous functions of workbench-screen.tsx that the buttons of the
--   identity panel set off, as scripts: a script calls the provider by an event, navigates, or
--   waits for a request and goes on with its answer. Scenarios/Performance lets a script act on
--   the state of the provider: for each request it is given what happens while it waits and how
--   the network ends it. Scenarios/Bounded counts the requests of a script, Scenarios/Rest is
--   about the page at its end.
-- * Guided is endpoint-guided-action.tsx: fillTotp, and the two passkey flows as scripts over the
--   authenticator of the browser. Both flows are one definition with a record of what differs
--   between them.
-- * Panels is what the components show, as data: Request, Response, Identity, Toasts, Header
--   (app-header.tsx and LocaleSwitcher.tsx), Catalog, and in Screen the addresses that the routes
--   open and the keyboard shortcuts. A button is its text and whether it is disabled, a link its
--   address.
-- * Search is the filter of endpoint-catalog.tsx, over a parameter for toLocaleLowerCase, and the
--   defaults of search-schema.ts.
-- * Browser is computeTotp, decodeBase32, bytesToBase64Url and base64UrlToBytes of
--   browser-effects.ts, the last two with the browser's btoa and atob as its standard defines
--   them, over parameters for toUpperCase and for the HMAC of the browser, whose exceptions are
--   the value none. The decimal text of a code is computed with six as a bound on its digits,
--   which is enough below a million, and that of a counter with one digit more than its value. The
--   loop that fills a pool runs for as many rounds as the pool has sessions, which is enough,
--   since each round asks for one at least (Load/Sizes). The time is divided exactly, which the
--   division of floating-point numbers matches for the times of a clock. Browser/Passkey is the
--   rest of this file: the decoders of WebAuthn options, which keep the other properties of an
--   options object, credentialToJson, createPasskey and getPasskey, over an authenticator.
-- * Load is tests/load/config.js, Load/Pool its createTokenPool, Load/Refresh the iterations of
--   refresh.js, Load/Runs the setups of the runs and Load/Options their options. The calls of the
--   load generator, batch and post, are functions on a state of the outside that the definitions
--   take; what a theorem relies on is that batch gives a response for each request.
-- * Sync is playground-ui/scripts/sync-static.mjs, from the comparison of the page's times on.
-- * Prelude has the notation and the lemmas on lists and texts that the parts share, Json the
--   values of JSON.parse, Platform what the code takes from outside, Tests runs on small inputs,
--   among them the cases of the program's own unit tests (Tests/Vectors, with the vector of RFC
--   6238).
--
-- What the code takes from outside is the record Platform, an argument of the definitions that use
-- it: JSON.parse, JSON.stringify, the generated messages, the URL parser, and the texts of
-- built-in functions. A theorem that needs JSON to read back what it wrote says so by the
-- hypothesis ReadsBack for the one value concerned. The network is an outcome that is given to the
-- code; Math.round and the clock are outside, the time of a response is given with it. The
-- browser's session storage is modelled in Vault: it may be blocked, and it refuses a value that
-- does not fit.
--
-- Texts are lists of UTF-16 code units. encodeURIComponent, decodeURIComponent,
-- String.prototype.replace with its dollar patterns, and the serializer of URLSearchParams are
-- modelled as the language and its standards define them. Loops are structural recursion, on a
-- list, a text or a JSON value, or run for a bounded number of rounds where named above. Numbers
-- in JSON are kept by their decimal text, since no code computes with them.
--
-- Not modelled: of the components, the class names, the icons, the nesting of their elements, the
-- focus and the drawer of small screens; __root.tsx, index.tsx and router.tsx, which are glue for
-- the router library; the copies of the shadcn components under playground-ui/src/components/ui,
-- which are a third party's; the call of the clipboard, whose outcome is given to the code; the
-- copying of directories in sync-static.mjs; configuration and generated code; and the service
-- itself, which is written in C#.
pub mod Prelude
pub mod Json
pub mod Types
pub mod Constants
pub mod Platform
pub mod Catalog
pub mod Template
pub mod Uri
pub mod Address
pub mod Headers
pub mod Curl
pub mod Fetch
pub mod Vault
pub mod Workbench
pub mod Search
pub mod Browser
pub mod Detail
pub mod Scenarios
pub mod Panels
pub mod Guided
pub mod Load
pub mod Sync
pub mod Tests
