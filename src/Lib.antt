-- ===== src/Lib.antt =====
-- A model of fubble, a program for voice and video conversations: the server that lets two devices
-- negotiate a connection, the server that hands out temporary rooms, and the parts of the client that
-- join a room, keep it synchronized, keep its members, and decide what is captured, sent and muted.
--
-- How the parts interact. A client registers at the signaling server under a key; the server pairs the
-- two devices of a key and relays offers, answers and candidates between them, giving the turn to
-- negotiate to one device at a time. On the client's side the reconnecting signaling client carries
-- these messages, and `offer_answer` drives the rtc connection by them. Rooms are matrix rooms: a
-- temporary room is asked for by name, and a sync response brings the members, names, messages and
-- custom states of the rooms. From the members the client makes its participants; from the custom
-- states it knows who is muted or deafened, and from its own flags how loud every track is. To join, the
-- client asks for the version, registers, and is handed to the synchronizer, which asks for events again
-- and again over a timer. The camera and the shared desktop, of which each pauses the other, are sent to
-- every connection by the tracks adder. Messages of the signaling go through a websocket, which queues
-- them.
--
-- Files:
--   Base               names of the libraries, tests on texts and numbers, lists, finite maps, and
--                      runs of a step that may go wrong
--   Signaling.Message  fubble/signaling/{offer,answer,ice_candidate,registration}.hpp
--   Signaling.Device   fubble/signaling/device/device.cpp: the devices of the server, on a store
--   Signaling.Handler  fubble/signaling/registration_handler.cpp: `register_` and `on_device_closed`
--   Signaling.Client   fubble/signaling/client/client.cpp: `client_impl` and `reconnecting_client`
--   Signaling.Json     fubble/signaling/json_message.cpp: `parse` and `serialize`
--   Signaling.ReadLoop fubble/signaling/{server,client}/connection.cpp: `run` and the visitors
--   Negotiation        fubble/client/p2p/negotiation/offer_answer.cpp
--   Rooms              fubble/temporary_room/rooms/rooms.cpp
--   Rooms.Adapter      fubble/temporary_room/server/matrix_rooms_factory_adapter.cpp: its adapter
--   Serving            fubble/temporary_room/net/acceptor.cpp: connections and their acceptor
--   Matrix             fubble/matrix/{room,room_participant,room_states,chat}.cpp
--   Matrix.Reading     fubble/matrix/events.cpp, with how room.cpp and chat.cpp read JSON
--   Matrix.Rooms       fubble/matrix/rooms.cpp
--   Matrix.Sync        fubble/matrix/client.cpp, from sync_till_stop to stop_sync, and
--                      fubble/matrix/client_synchronizer.cpp
--   Matrix.Users       fubble/matrix/users.cpp and user.cpp: presence and names
--   Participants       fubble/client/participants.cpp
--   Joining            fubble/client/{joiner,leaver,rooms,room}.cpp: entering and leaving a room
--   TracksAdder        fubble/client/tracks_adder.cpp
--   Video.Settings     fubble/client/video_settings.cpp, on fubble/client/own_video.cpp
--   Video.Desktop      fubble/client/desktop_sharing.cpp: desktop_sharing_impl, over the capturer of
--                      fubble/rtc/google/capture/desktop/capturer.cpp
--   Previews           fubble/client/desktop_sharing.cpp: desktop_sharing_previews_impl, over
--                      interval_capturer_impl of capturer.cpp
--   Timers             fubble/utils/timer.cpp: one_shot_timer and interval_timer
--   Websocket          fubble/websocket/connection_impl.cpp: send, read and their handlers
--   Websocket.Connector  fubble/websocket/connector.cpp
--   MuteDeaf           fubble/client/mute_deaf_communicator.cpp
--   AudioVolume        fubble/client/audio_tracks_volume.cpp
--   AudioLevel         fubble/client/audio_level_calculator.cpp
--   Loopback           fubble/client/loopback_audio.cpp: turning it on and off
--   App                fubble/app/participants_model.cpp and participants_with_video_model.cpp
--   Receiving          fubble/rtc/google/connection.cpp (received tracks), on
--                      fubble/client/remote_participant.cpp and fubble/app/participant_model.cpp
--   Capture            fubble/v4l2_hw_h264/reader.cpp, and in Capture.Frames
--                      fubble/v4l2_hw_h264/video_encoder.cpp
--   Http               fubble/http/action.cpp, on fubble/http/connector.hpp and ssl_upgrader.hpp
--   VideoLayout        fubble/video_layout/video_layout.cpp: layouts and visibility
--   Tests              concrete runs
--
-- Conventions. An operation of the source is a function of the same name from states to states. Calls of
-- other objects (connections, factories, signals) are entries of a log, newest first, and the futures
-- that they return end in later events. A pointer is a number or an `Option`; a null dereference is
-- `none`. What an `assert` guards is written as a release build behaves. A loop over a container is
-- structural recursion. The one signal whose listener emits it again, on_paused of the video settings,
-- has the depth of its nesting as fuel; depth one is enough, since no run is undefined; the loop over the controls of
-- a camera has fuel too, and one more than the device has controls is enough. The JSON
-- library and the kernel are parameters with their documented laws; a volume or a sound level is a value of
-- any type. Time stamps are
-- natural numbers of milliseconds, which stand for those that a std::int64_t and a time_point can hold. Events that asio or beast would not bring, such as the end of a write
-- that was not begun, do nothing.
--
-- Not modelled: what http clients and websocket acceptors wire together, webrtc and gstreamer but
-- for the received tracks, the loop of the thread that reads the camera, the negotiation of the loopback
-- and the average over audio samples, the models of the Qt user interface but for the lists of
-- participants, the modules and factories that only wire objects together, and logging.
pub mod App
pub mod AudioLevel
pub mod AudioVolume
pub mod Base
pub mod Capture
pub mod Http
pub mod Joining
pub mod Loopback
pub mod Matrix
pub mod MuteDeaf
pub mod Negotiation
pub mod Participants
pub mod Previews
pub mod Receiving
pub mod Rooms
pub mod Serving
pub mod Signaling
pub mod Tests
pub mod Timers
pub mod TracksAdder
pub mod Video
pub mod VideoLayout
pub mod Websocket
